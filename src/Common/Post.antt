-- ===== src/Common/Post.antt =====
-- Postconditions of fallible code: what holds of its value, and of its error.
use mathlib.Core.Path.{◌≡◌, refl}
use mathlib.Core.Bool.{Bool, true, false}
use mathlib.Core.Option.{Option, none, some}
use geata.Common.Tests.{if◌then◌else◌}
use geata.Common.Results.{Result, ok, err, ensure, ok_or, ◌>>=◌}

abbrev pub PostOf : {E A : Type 0} → (E → Type 0) → (A → Type 0) → Result E A → Type 0
PostOf Q P (err e) = Q e
PostOf Q P (ok a) = P a

pub record Post {E A : Type 0} (Q : E → Type 0) (P : A → Type 0) (r : Result E A) : Type 0 where
  pub holds : PostOf Q P r

-- Nothing is said of the error.
abbrev pub Any : {E : Type 0} → E → Type 0
Any e = Unit

module _ {E : Type 0} {Q : E → Type 0} where
  pub ok-Post : {A : Type 0} {P : A → Type 0} {a : A} → P a → Post Q P (ok a)
  ok-Post h = record { holds = h }

  pub err-Post : {A : Type 0} {P : A → Type 0} {e : E} → Q e → Post Q P (err e)
  err-Post h = record { holds = h }

  pub bind-Post :
      {A B : Type 0} {P : A → Type 0} {R : B → Type 0} (r : Result E A) (f : A → Result E B)
      → Post Q P r
      → ((a : A) → P a → Post Q R (f a))
      → Post Q R (r >>= f)
  bind-Post (err e) f h k = err-Post h.holds
  bind-Post (ok a) f h k = k a h.holds

  pub ensure-Post :
      {A : Type 0} {P : A → Type 0} (b : Bool) (e : E) (next : Result E A)
      → Q e
      → (b ≡ true → Post Q P next)
      → Post Q P (ensure b e >>= λ _. next)
  ensure-Post true e next q k = k refl
  ensure-Post false e next q k = err-Post q

  pub ok_or-Post : {A : Type 0} (o : Option A) (e : E) → Q e → Post Q (λ a. o ≡ some a) (ok_or o e)
  ok_or-Post none e q = err-Post q
  ok_or-Post (some a) e q = ok-Post refl

  pub if-Post :
      {A : Type 0} {P : A → Type 0} (b : Bool) (x y : Result E A)
      → (b ≡ true → Post Q P x)
      → (b ≡ false → Post Q P y)
      → Post Q P (if b then x else y)
  if-Post true x y h k = h refl
  if-Post false x y h k = k refl

  pub map-Post :
      {A : Type 0} {P R : A → Type 0} (r : Result E A)
      → Post Q P r
      → ((a : A) → P a → R a)
      → Post Q R r
  map-Post (err e) h k = err-Post h.holds
  map-Post (ok a) h k = ok-Post (k a h.holds)

pub result-Post : {E A : Type 0} (r : Result E A) → Post Any (λ _. Unit {0}) r
result-Post (ok a) = ok-Post tt
result-Post (err e) = err-Post tt

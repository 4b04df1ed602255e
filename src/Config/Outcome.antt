-- ===== src/Config/Outcome.antt =====
-- Postconditions of the parsers of the configuration: their value holds, and the fuel never runs out.
use geata.Common.{
  ℕ, String, ◌≡◌, ◌≢◌, refl, Bool, true, false, Option, none, some, Result, ok, err, ◌>>=◌,
}
use geata.Common.Post.{Post, Any, ok-Post, err-Post}
use geata.Config.Token.{Failure, out_of_fuel, Parsed, fail}
use geata.Config.Handler.{at_line}
use geata.Config.Directives.{guard, or_fail}

abbrev pub NotFuel : Failure → Type 0
NotFuel e = e ≢ out_of_fuel

abbrev pub Holds : {A : Type 0} → (A → Type 0) → Parsed A → Type 0
Holds P r = Post NotFuel P r

pub fail-Holds :
    {A : Type 0} {P : A → Type 0} (line : ℕ) (message : String) → Holds P (fail line message)
fail-Holds line message = err-Post (λ e. cc)

pub guard-Holds :
    {A : Type 0} {P : A → Type 0} (b : Bool) (line : ℕ) (message : String) (next : Parsed A)
    → (b ≡ true → Holds P next)
    → Holds P (guard b line message >>= λ _. next)
guard-Holds true line message next h = h refl
guard-Holds false line message next h = fail-Holds line message

pub or_fail-Holds :
    {A : Type 0} (o : Option A) (line : ℕ) (message : String)
    → Holds (λ a. o ≡ some a) (or_fail o line message)
or_fail-Holds none line message = fail-Holds line message
or_fail-Holds (some a) line message = ok-Post refl

pub at_line-Holds :
    {A : Type 0} {P : A → Type 0} (line : ℕ) (r : Result String A)
    → Post Any P r
    → Holds P (at_line line r)
at_line-Holds line (ok a) h = ok-Post h.holds
at_line-Holds line (err message) h = fail-Holds line message

pub Holds-ne : {A : Type 0} {P : A → Type 0} (r : Parsed A) → Holds P r → r ≢ err out_of_fuel
Holds-ne (ok a) h e = cc
Holds-ne (err x) h e = h.holds (cc)

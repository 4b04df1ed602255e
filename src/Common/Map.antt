-- ===== src/Common/Map.antt =====
-- `HashMap`, `BTreeMap` and database tables, as association lists: iteration order is not observed.
use Prim.Native.Nat.{suc, ◌≤◌, ◌<◌}
use mathlib.Core.Path.{◌≡◌, refl, subst}
use mathlib.Core.Logic.{inl, inr}
use mathlib.Core.Bool.{Bool, false}
use mathlib.Core.Option.{Option, none, some}
use mathlib.Core.List.{List, [], ◌∷◌}
use native.Mathlib.Omega.{arith}
use geata.Common.Tests.{Key, ◌==◌, if◌then◌else◌, same_key_refl, is_some, Bool-cases}
use geata.Common.Lists.{length}

abbrev pub Map {ℓ κ} : Type ℓ → Type κ → Type (ℓ ⊔ κ)
Map K V = List (K × V)

module _ {ℓ κ} {K : Type ℓ} {V : Type κ} ⦃e : Key K⦄ where
  unfoldable pub get : K → Map K V → Option V
  get wanted [] = none
  get wanted ((key, value) ∷ rows) = if key == wanted then some value else get wanted rows

  unfoldable pub insert : K → V → Map K V → Map K V
  insert key value [] = (key, value) ∷ []
  insert key value ((other, old) ∷ rows) =
      let rest = insert key value rows in
      if other == key then (key, value) ∷ rows else (other, old) ∷ rest

  unfoldable pub remove : K → Map K V → Map K V
  remove k [] = []
  remove k ((j, v) ∷ m) = let rest = remove k m in if j == k then rest else (j, v) ∷ rest

  -- No key occurs twice.
  abbrev pub Distinct : Map K V → Type κ
  Distinct [] = Unit
  Distinct ((k, v) ∷ m) = (get k m ≡ none) × Distinct m

module _ {ℓ κ} {K : Type ℓ} {V : Type κ} where
  -- `retain`: the entries that pass the test stay.
  unfoldable pub retain : (K → V → Bool) → Map K V → Map K V
  retain p [] = []
  retain p ((k, v) ∷ m) = let rest = retain p m in if p k v then (k, v) ∷ rest else rest

  pub length-retain : (p : K → V → Bool) (m : Map K V) → length (retain p m) ≤ length m
  unfolding retain
  length-retain p [] = omega arith
  length-retain p ((k, v) ∷ m) = ground (arith, length-retain p m)

  abbrev pub keep_if : (K → V → Bool) → K → Option V → Option V
  keep_if p k none = none
  keep_if p k (some v) = if p k v then some v else none

module _ {ℓ κ} {K : Type ℓ} {V : Type κ} ⦃e : Key K⦄ where
  pub get-insert :
      (k j : K) (v : V) (m : Map K V) → get j (insert k v m) ≡ (if k == j then some v else get j m)
  unfolding get insert
  get-insert k j v [] = refl
  get-insert k j v ((i, w) ∷ m) =
      ground (arith, e.same_iff k j, e.same_iff i k, e.same_iff i j, get-insert k j v m)

  pub get-insert_self : (k : K) (v : V) (m : Map K V) → get k (insert k v m) ≡ some v
  get-insert_self k v m = rw (get-insert k k v m, same_key_refl k)

  pub get-remove : (k j : K) (m : Map K V) → get j (remove k m) ≡ (if k == j then none else get j m)
  unfolding get remove
  get-remove k j [] = ground arith
  get-remove k j ((i, w) ∷ m) =
      ground (arith, e.same_iff k j, e.same_iff i k, e.same_iff i j, get-remove k j m)

  pub get-retain-none :
      (p : K → V → Bool) (k : K) (m : Map K V) → get k m ≡ none → get k (retain p m) ≡ none
  unfolding get retain
  get-retain-none p k [] h = refl
  get-retain-none p k ((i, w) ∷ m) h = ground (arith, get-retain-none p k m)

  -- With distinct keys, a lookup after `retain` is the old lookup, filtered.
  pub get-retain :
      (p : K → V → Bool) (k : K) (m : Map K V)
      → Distinct m
      → get k (retain p m) ≡ keep_if p k (get k m)
  unfolding get retain
  get-retain p k [] d = refl
  get-retain p k ((i, w) ∷ m) d =
      ground (arith, e.same_iff i k, get-retain-none p i m, get-retain p k m d.1)

  pub insert-Distinct : (k : K) (v : V) (m : Map K V) → Distinct m → Distinct (insert k v m)
  unfolding get insert
  insert-Distinct k v [] d = (refl, tt)
  insert-Distinct k v ((i, w) ∷ m) d =
      ground (arith, e.same_iff i k, e.same_iff k i, get-insert k i v m, insert-Distinct k v m d.1)

  pub remove-Distinct : (k : K) (m : Map K V) → Distinct m → Distinct (remove k m)
  unfolding remove
  remove-Distinct k [] d = tt
  remove-Distinct k ((i, w) ∷ m) d = ground (arith, get-remove k i m, remove-Distinct k m d.1)

  pub retain-Distinct : (p : K → V → Bool) (m : Map K V) → Distinct m → Distinct (retain p m)
  unfolding retain
  retain-Distinct p [] d = tt
  retain-Distinct p ((i, w) ∷ m) d = ground (arith, get-retain-none p i m, retain-Distinct p m d.1)

  -- A new key adds an entry, an old one none.
  pub length-insert :
      (k : K) (v : V) (m : Map K V)
      → length (insert k v m) ≡ (if is_some (get k m) then length m else suc (length m))
  unfolding get insert
  length-insert k v [] = refl
  length-insert k v ((i, w) ∷ m) = ground (arith, length-insert k v m)

  -- `retain` that drops a present key leaves fewer entries.
  pub length-retain_lt :
      (p : K → V → Bool) (k : K) (v : V) (m : Map K V)
      → get k m ≡ some v
      → p k v ≡ false
      → length (retain p m) < length m
  unfolding get retain
  length-retain_lt p k v [] h d = cc
  length-retain_lt p k v ((i, w) ∷ m) h d =
      ground (arith, e.same_iff i k, length-retain p m, length-retain_lt p k v m)

-- A predicate of every entry.
abbrev pub Every {ℓ κ} : {K : Type ℓ} {V : Type κ} → (K → V → Type 0) → Map K V → Type 0
Every P [] = Unit
Every P ((k, v) ∷ rows) = P k v × Every P rows

module _ {ℓ κ} {K : Type ℓ} {V : Type κ} ⦃e : Key K⦄ where
  pub insert-Every :
      (P : K → V → Type 0) (k : K) (v : V) (m : Map K V)
      → P k v
      → Every P m
      → Every P (insert k v m)
  unfolding insert
  insert-Every P k v [] p h = (p, tt)
  insert-Every P k v ((i, w) ∷ m) p h = elim (Bool-cases (i == k)) [
    | inl same ↦ rw same (p, h.1)
    | inr other ↦ rw other (h.0, insert-Every P k v m p h.1)
  ]

  pub get-Every :
      (P : K → V → Type 0) (k : K) (v : V) (m : Map K V) → Every P m → get k m ≡ some v → P k v
  unfolding get
  get-Every P k v [] h g = absurd (ground arith)
  get-Every P k v ((i, w) ∷ m) h g = elim (Bool-cases (i == k)) [
    | inl same ↦ subst2 (ground (arith, same, g)) ((e.same_iff i k).0 same) h.0
    | inr other ↦ get-Every P k v m h.1 (ground (arith, other, g))
  ]
    where
      subst2 : w ≡ v → i ≡ k → P i w → P k v
      subst2 q r p = subst (λ x. P x v) r (subst (λ x. P i x) q p)

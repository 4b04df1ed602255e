-- ===== src/Common/Settings/Exact.antt =====
-- A block of settings is read exactly (crates/geata/src/payments/payout.rs and lightning/mod.rs).
use Prim.Native.String.{String}
use mathlib.Core.Path.{◌≡◌, refl, sym, ap, subst, ◌∙◌}
use mathlib.Core.Logic.{◌↔◌}
use mathlib.Core.Bool.{true, false, not}
use mathlib.Core.Option.{Option, none, some}
use mathlib.Core.List.{List, [], ◌∷◌, ◌++◌}
use native.Mathlib.Omega.{arith}
use geata.Common.Tests.{is_some, ◌==◌}
use geata.Common.Lists.{any, All}
use geata.Common.Post.{Post, Any, ok-Post, err-Post, if-Post, map-Post}
use geata.Common.Results.{Result, ok, err, ◌>>=◌, ok_or}
use geata.Common.Map.{Map, get, insert, Distinct, insert-Distinct}
use geata.Common.Settings.{pairs, fields_from, read_fields}
use geata.Common.Text.{Text, text_Key}

insert_fresh :
    (name value : Text) (m : Map Text Text)
    → get name m ≡ none
    → insert name value m ≡ m ++ ((name, value) ∷ [])
unfolding get insert
insert_fresh name value [] h = refl
insert_fresh name value ((k, v) ∷ m) h = ground (arith, insert_fresh name value m)

append_assoc :
    {A : Type 0} (xs : List A) (y : A) (ys : List A) → (xs ++ (y ∷ [])) ++ ys ≡ xs ++ (y ∷ ys)
append_assoc [] y ys = refl
append_assoc (x ∷ xs) y ys = ap (λ l. x ∷ l) (append_assoc xs y ys)

append_nil : {A : Type 0} (xs : List A) → xs ++ [] ≡ xs
append_nil [] = refl
append_nil (x ∷ xs) = ap (λ l. x ∷ l) (append_nil xs)

is_none : {A : Type 0} (o : Option A) → is_some o ≡ false → o ≡ none
is_none none h = refl
is_none (some a) h = absurd (cc)

-- The names are among those that are known.
abbrev pub AllKnown : List Text → Map Text Text → Type 0
AllKnown known fields = All (λ field. any (λ k. k == field.0) known ≡ true) fields

module _ (known : List Text) (unknown duplicate : String) where
  fields_from-exact :
      (fields : Map Text Text) (rest : List (Text × Text))
      → Distinct fields
      → Post Any
          (λ r. (r ≡ fields ++ rest) × (Distinct r × AllKnown known rest))
          (fields_from known unknown duplicate fields rest)
  unfolding fields_from
  fields_from-exact fields [] d = ok-Post (sym (append_nil fields), (d, tt))
  fields_from-exact fields ((name, value) ∷ rest) d =
      if-Post (not (any (λ k. k == name) known)) _ _ (λ _. err-Post tt)
        λ is_known.
          if-Post (is_some (get name fields)) _ _ (λ _. err-Post tt)
            λ fresh.
              let free : get name fields ≡ none = is_none (get name fields) fresh in
              map-Post (fields_from known unknown duplicate (insert name value fields) rest)
                (fields_from-exact (insert name value fields) rest
                  (insert-Distinct name value fields d))
                λ r h. (
                  h.0
                      ∙ (ap (λ m. m ++ rest) (insert_fresh name value fields free)
                          ∙ append_assoc fields (name, value) rest),
                  (h.1.0, (ground (arith, is_known), h.1.1)),
                )

-- A name that stands behind other pairs is none of theirs.
other_name :
    (i k v : Text) (m rest : Map Text Text) → get i (m ++ ((k, v) ∷ rest)) ≡ none → (k == i) ≡ false
unfolding get
other_name i k v [] rest h = ground (arith, h)
other_name i k v ((j, w) ∷ m) rest h = ground (arith, h, other_name i k v m rest)

fresh_name :
    (k v : Text) (m rest : Map Text Text) → Distinct (m ++ ((k, v) ∷ rest)) → get k m ≡ none
unfolding get
fresh_name k v [] rest d = refl
fresh_name k v ((i, w) ∷ m) rest d = ground (
  arith,
  other_name i k v m rest d.0,
  text_Key.same_iff k i,
  text_Key.same_iff i k,
  fresh_name k v m rest d.1,
)

fields_from-ok :
    (known : List Text) (unknown duplicate : String) (fields : Map Text Text)
    (rest : List (Text × Text))
    → Distinct (fields ++ rest)
    → AllKnown known rest
    → fields_from known unknown duplicate fields rest ≡ ok (fields ++ rest)
unfolding fields_from
fields_from-ok known unknown duplicate fields [] d k = ap ok (sym (append_nil fields))
fields_from-ok known unknown duplicate fields ((name, value) ∷ rest) d k =
    let free = fresh_name name value fields rest d in
    let joined : insert name value fields ++ rest ≡ fields ++ ((name, value) ∷ rest) =
      ap (λ m. m ++ rest) (insert_fresh name value fields free)
      ∙ append_assoc fields (name, value) rest in
    rw (k.0, free)
      (fields_from-ok known unknown duplicate (insert name value fields) rest
          (subst (λ m. Distinct m) (sym joined) d) k.1
        ∙ ap ok joined)

read_fields-pairs :
    (known : List Text) (odd unknown duplicate : String) (args : List Text) (fields : Map Text Text)
    → read_fields known odd unknown duplicate args ≡ ok fields
    → (pairs args ≡ some fields) × (Distinct fields × AllKnown known fields)
unfolding read_fields
read_fields-pairs known odd unknown duplicate args fields h = go (pairs args) h
  where
    value_of :
        (rows : List (Text × Text)) (r : Result String (Map Text Text))
        → Post Any (λ r. (r ≡ rows) × (Distinct r × AllKnown known rows)) r
        → r ≡ ok fields
        → (let o : Option (List (Text × Text)) = some rows in o ≡ some fields)
          × (Distinct fields × AllKnown known fields)
    value_of rows (err e) p e' = absurd (cc)
    value_of rows (ok r) p e =
        let same : r ≡ fields = cc in
        let rows_are : rows ≡ fields = sym p.holds.0 ∙ same in
        (
          ap (λ x. some x) rows_are,
          (subst (λ m. Distinct m) same p.holds.1.0, subst (AllKnown known) rows_are p.holds.1.1),
        )

    go :
        (o : Option (List (Text × Text)))
        → (ok_or o odd >>= fields_from known unknown duplicate []) ≡ ok fields
        → (o ≡ some fields) × (Distinct fields × AllKnown known fields)
    go none e = absurd (cc)
    go (some rows) e =
        value_of rows (fields_from known unknown duplicate [] rows)
          (fields_from-exact known unknown duplicate [] rows tt) e

read_fields-ok :
    (known : List Text) (odd unknown duplicate : String) (args : List Text) (fields : Map Text Text)
    → (pairs args ≡ some fields) × (Distinct fields × AllKnown known fields)
    → read_fields known odd unknown duplicate args ≡ ok fields
unfolding read_fields
read_fields-ok known odd unknown duplicate args fields h =
    ap (λ (o : Option (List (Text × Text))). ok_or o odd >>= fields_from known unknown duplicate [])
      h.0
    ∙ fields_from-ok known unknown duplicate [] fields h.1.0 h.1.1

-- A block of settings is read as a table exactly where it is that table, written pair by pair in its order,
-- with known names of which none occurs twice; every other block is refused. So no setting is left out
-- or overwritten by a later one, and no name is ignored.
pub read_fields-ok_iff :
    (known : List Text) (odd unknown duplicate : String) (args : List Text) (fields : Map Text Text)
    → (read_fields known odd unknown duplicate args ≡ ok fields)
      ↔ ((pairs args ≡ some fields) × (Distinct fields × AllKnown known fields))
read_fields-ok_iff known odd unknown duplicate args fields = (
  read_fields-pairs known odd unknown duplicate args fields,
  read_fields-ok known odd unknown duplicate args fields,
)

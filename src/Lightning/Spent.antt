-- ===== src/Lightning/Spent.antt =====
-- The table of spent payments: `claim` of crates/geata/src/payments/lightning/mod.rs and `prune` of maintenance.rs.
use geata.Common.{
  ℕ, ◌≡◌, ◌<◌, refl, ap, ◌⊎◌, inl, inr, Bool, true, false, Option, none, some, [], ◌∷◌, Result, err,
  ltb, leb, ◌==◌, if◌then◌else◌, is_ok, arith, Bool-cases,
}
use geata.Common.Text.{Text, text_Key}
use geata.Common.Map.{Map, get, insert, retain, get-insert, get-insert_self}
use geata.Ledger.{Commit, answered, rolled_back, unseen}
use geata.Lightning.{Settlements, LightningError, unavailable, spend, claim}

pub not_none :
    {A : Type 0} (b : Bool) (o : Option A) {a : A}
    → (let r : Option A = if b then none else o in r ≡ some a)
    → o ≡ some a
not_none true o h = absurd (ground arith)
not_none false o h = h

-- A row that is not due for pruning stays.
pub get-retain_live :
    (k : Text) (time until : ℕ) (m : Map Text ℕ)
    → get k m ≡ some until
    → time < until
    → get k (retain (λ _ expiry. ltb time expiry) m) ≡ some until
unfolding get retain
get-retain_live k time until [] h lt = absurd (ground arith)
get-retain_live k time until ((j, v) ∷ m) h lt = ground (arith, get-retain_live k time until m)

-- A claim leaves the rows that are there.
insert-get :
    (key k : Text) (until kept : ℕ) (m : Map Text ℕ)
    → get key m ≡ none
    → get k m ≡ some kept
    → get k (insert key until m) ≡ some kept
insert-get key k until kept m free h = elim (Bool-cases (key == k)) [
  | inl e ↦ absurd (ground (arith, free, h, ap (λ x. get x m) ((text_Key.same_iff key k).0 e)))
  | inr e ↦ ground (arith, get-insert key k until m, e, h)
]

spend-get :
    (c : Commit) (key k : Text) (until kept : ℕ) (o : Option ℕ) (db : Settlements)
    → get key db.spent ≡ o
    → get k db.spent ≡ some kept
    → get k (spend c key until o db).1.spent ≡ some kept
spend-get answered key k until kept (some x) db e h = h
spend-get rolled_back key k until kept (some x) db e h = h
spend-get unseen key k until kept (some x) db e h = h
spend-get answered key k until kept none db e h = insert-get key k until kept db.spent e h
spend-get rolled_back key k until kept none db e h = h
spend-get unseen key k until kept none db e h = insert-get key k until kept db.spent e h

pub claim-get :
    (c : Commit) (now : ℕ) (key k : Text) (until kept : ℕ) (db : Settlements)
    → get k db.spent ≡ some kept
    → get k (claim c now key until db).1.spent ≡ some kept
unfolding claim
claim-get c now key k until kept db h = elim (Bool-cases (leb until now)) [
  | inl e ↦ ground (arith, e, h)
  | inr e ↦ ground (arith, e, spend-get c key k until kept (get key db.spent) db refl h)
]

-- A spent key is refused.
spend-refused :
    (c : Commit) (key : Text) (until kept : ℕ) (o : Option ℕ) (db : Settlements)
    → o ≡ some kept
    → is_ok (spend c key until o db).0 ≡ false
spend-refused answered key until kept (some x) db e = refl
spend-refused rolled_back key until kept (some x) db e = refl
spend-refused unseen key until kept (some x) db e = refl
spend-refused c key until kept none db e = absurd (ground arith)

pub claim-refused :
    (c : Commit) (now : ℕ) (key : Text) (until kept : ℕ) (db : Settlements)
    → get key db.spent ≡ some kept
    → is_ok (claim c now key until db).0 ≡ false
unfolding claim
claim-refused c now key until kept db h = elim (Bool-cases (leb until now)) [
  | inl e ↦ ground (arith, e)
  | inr e ↦ ground (arith, e, spend-refused c key until kept (get key db.spent) db h)
]

-- A claim that succeeds has written its row.
spend-kept :
    (c : Commit) (key : Text) (until : ℕ) (o : Option ℕ) (db : Settlements)
    → (is_ok (spend c key until o db).0 ≡ false)
      ⊎ (get key (spend c key until o db).1.spent ≡ some until)
spend-kept answered key until (some x) db = inl refl
spend-kept rolled_back key until (some x) db = inl refl
spend-kept unseen key until (some x) db = inl refl
spend-kept answered key until none db = inr (get-insert_self key until db.spent)
spend-kept rolled_back key until none db = inl refl
spend-kept unseen key until none db = inl refl

pub claim-kept :
    (c : Commit) (now : ℕ) (key : Text) (until : ℕ) (db : Settlements)
    → (is_ok (claim c now key until db).0 ≡ false)
      ⊎ (get key (claim c now key until db).1.spent ≡ some until)
unfolding claim
claim-kept c now key until db = go (leb until now)
  where
    go :
        (b : Bool)
        → let r : Result LightningError (Unit {0}) × Settlements =
            if b then (err unavailable, db) else spend c key until (get key db.spent) db in
          (is_ok r.0 ≡ false) ⊎ (get key r.1.spent ≡ some until)
    go true = inl refl
    go false = spend-kept c key until (get key db.spent) db

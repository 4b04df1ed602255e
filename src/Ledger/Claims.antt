-- ===== src/Ledger/Claims.antt =====
-- What the ledger of crates/geata/src/payments/ledger.rs promises of its rows.
use text.Mathlib.TextEquality.{eq_iff}
use geata.Common.{
  not, ℕ, ◌+◌, ◌≤◌, ◌≡◌, refl, ◌∙◌, ◌⊎◌, String, Bool, true, false, Option, none, some, List, [],
  ◌∷◌, arith, Result, ok, err, if◌then◌else◌, ◌==◌, string_Key,
}
use geata.Common.Map.{get, get-insert}
use geata.Ledger.{
  Payment, PayoutState, Database, Commit, Reservation, answered, rolled_back, unseen, LedgerError,
  reserve, reservation, claim, claim_row, open_ledger, save_payout,
}

-- An operation of any caller, with the end of its transaction.
pub data Op : Type 0 where
  opens : Commit → Op
  reserves : Commit → String → String → ℕ → Op
  claims : Commit → String → Op
  saves : Commit → PayoutState → Op

unfoldable pub after : Op → Database → Database
after (opens c) db = (open_ledger c db).1
after (reserves c id site price) db = (reserve c id site price db).1
after (claims c id) db = (claim c id db).1
after (saves c state) db = (save_payout c state db).1

abbrev pub claimed_of : Option Payment → Bool
claimed_of none = false
claimed_of (some row) = row.is_claimed

abbrev pub is_claimed : String → Database → Bool
is_claimed id db = claimed_of (get id db.payments)

-- `claim` answered that the caller may go on.
abbrev pub is_granted : Result LedgerError Bool → Bool
is_granted (ok granted) = granted
is_granted (err _) = false

unfoldable pub granted : String → Op → Database → ℕ
granted id (opens c) db = 0
granted id (reserves c j site price) db = 0
granted id (claims c j) db = if j == id then (if is_granted (claim c j db).0 then 1 else 0) else 0
granted id (saves c state) db = 0

-- How often the callers of a history were let through with the payment.
unfoldable pub grants : String → Database → List Op → ℕ
grants id db [] = 0
grants id db (o ∷ os) = granted id o db + grants id (after o db) os

abbrev pub to_ℕ : Bool → ℕ
to_ℕ true = 1
to_ℕ false = 0

open_ledger-payments : (c : Commit) (db : Database) → (open_ledger c db).1.payments ≡ db.payments
unfolding open_ledger
open_ledger-payments answered db = ground arith
open_ledger-payments rolled_back db = ground arith
open_ledger-payments unseen db = ground arith

save_payout-payments :
    (c : Commit) (state : PayoutState) (db : Database)
    → (save_payout c state db).1.payments ≡ db.payments
unfolding save_payout
save_payout-payments answered state db = refl
save_payout-payments rolled_back state db = refl
save_payout-payments unseen state db = refl

-- The row of `id` after a reservation of `j`.
abbrev row_after : Commit → String → String → Payment → Option Payment → Option Payment
row_after c id j row (some old) = some old
row_after rolled_back id j row none = none
row_after answered id j row none = if j == id then some row else none
row_after unseen id j row none = if j == id then some row else none

reserve-row :
    (c : Commit) (id j site : String) (price : ℕ) (db : Database)
    → get id (reserve c j site price db).1.payments
      ≡ row_after c id j
          (record { site = site; price = price; is_claimed = false })
          (get id db.payments)
unfolding reserve
reserve-row answered id j site price db = ground (
  arith,
  eq_iff j id,
  get-insert j id (record { site = site; price = price; is_claimed = false }) db.payments,
)
reserve-row rolled_back id j site price db = ground arith
reserve-row unseen id j site price db = ground (
  arith,
  eq_iff j id,
  get-insert j id (record { site = site; price = price; is_claimed = false }) db.payments,
)

abbrev claimed_row : Option Payment → Option Payment
claimed_row none = none
claimed_row (some row) = some (record row { is_claimed = true })

-- The row of `id` after a claim of `j`.
abbrev row_claimed : Commit → String → String → Option Payment → Option Payment
row_claimed answered id j o = if j == id then claimed_row o else o
row_claimed rolled_back id j o = o
row_claimed unseen id j o = if j == id then claimed_row o else o

abbrev claim_answer : Commit → Option Payment → Bool
claim_answer answered (some row) = not row.is_claimed
claim_answer answered none = false
claim_answer rolled_back _ = false
claim_answer unseen _ = false

claim_row-row :
    (id j : String) (o : Option Payment) (db : Database)
    → get j db.payments ≡ o
    → (get id (claim_row o db j).1.payments
        ≡ (if j == id then claimed_row o else get id db.payments))
      × ((claim_row o db j).0 ≡ claim_answer answered o)
unfolding claim_row
claim_row-row id j none db e = ground (arith, eq_iff j id)
claim_row-row id j (some row) db e =
    ground (arith, eq_iff j id, get-insert j id (record row { is_claimed = true }) db.payments)

claim-row :
    (c : Commit) (id j : String) (db : Database)
    → (get id (claim c j db).1.payments ≡ row_claimed c id j (get id db.payments))
      × (is_granted (claim c j db).0 ≡ claim_answer c (get j db.payments))
unfolding claim
claim-row answered id j db =
    let (row, answer) = claim_row-row id j (get j db.payments) db refl in
    ground (arith, row, answer, eq_iff j id)
claim-row rolled_back id j db = (refl, refl)
claim-row unseen id j db =
    let (row, answer) = claim_row-row id j (get j db.payments) db refl in
    ground (arith, row, eq_iff j id)

claims_once :
    (c : Commit) (id j : String) (db : Database)
    → granted id (claims c j) db + to_ℕ (is_claimed id db) ≤ to_ℕ (is_claimed id (claim c j db).1)
unfolding granted
claims_once answered id j db =
    let (row, answer) = claim-row answered id j db in ground (arith, row, answer, eq_iff j id)
claims_once rolled_back id j db =
    let (row, answer) = claim-row rolled_back id j db in ground (arith, row, answer)
claims_once unseen id j db =
    let (row, answer) = claim-row unseen id j db in ground (arith, row, answer, eq_iff j id)

reserves_keep :
    (c : Commit) (id j site : String) (price : ℕ) (db : Database)
    → is_claimed id (reserve c j site price db).1 ≡ is_claimed id db
reserves_keep answered id j site price db = ground (arith, reserve-row answered id j site price db)
reserves_keep rolled_back id j site price db =
    ground (arith, reserve-row rolled_back id j site price db)
reserves_keep unseen id j site price db = ground (arith, reserve-row unseen id j site price db)

-- A grant is given on a row that was not claimed, and claims it; nothing takes a claim back.
pub granted_once :
    (id : String) (o : Op) (db : Database)
    → granted id o db + to_ℕ (is_claimed id db) ≤ to_ℕ (is_claimed id (after o db))
unfolding granted after
granted_once id (opens c) db = rw (open_ledger-payments c db) (omega arith)
granted_once id (reserves c j site price) db = rw (reserves_keep c id j site price db) (omega arith)
granted_once id (claims c j) db = claims_once c id j db
granted_once id (saves c state) db = rw (save_payout-payments c state db) (omega arith)

pub to_ℕ-le : (b : Bool) → 0 + to_ℕ b ≤ 1
to_ℕ-le true = omega arith
to_ℕ-le false = omega arith

grants-le :
    (id : String) (db : Database) (os : List Op) → grants id db os + to_ℕ (is_claimed id db) ≤ 1
unfolding grants
grants-le id db [] = to_ℕ-le (is_claimed id db)
grants-le id db (o ∷ os) = omega (arith, granted_once id o db, grants-le id (after o db) os)

-- Over any history of openings, reservations, claims and payout records, by any callers and with
-- any of their transactions failing or unseen, a payment is granted at most once, and never once
-- its row is claimed.
pub single_use :
    (id : String) (db : Database) (os : List Op)
    → (grants id db os ≤ 1) × (is_claimed id db ≡ true → grants id db os ≡ 0)
single_use id db os = ground (arith, grants-le id db os)

-- A row is of a site at a price, and stays so; a claimed row stays claimed.
abbrev pub Kept : Option Payment → Option Payment → Type 0
Kept none o = Unit
Kept (some row) none = ⊥
Kept (some row) (some row') =
    (row'.site ≡ row.site)
    × (row'.price ≡ row.price)
    × (row.is_claimed ≡ true → row'.is_claimed ≡ true)

Kept-refl : (o : Option Payment) → Kept o o
Kept-refl none = tt
Kept-refl (some row) = (refl, refl, λ h. h)

Kept-trans : (a b c : Option Payment) → Kept a b → Kept b c → Kept a c
Kept-trans none b c h k = tt
Kept-trans (some x) none c h k = absurd h
Kept-trans (some x) (some y) none h k = absurd k
Kept-trans (some x) (some y) (some z) h k = (k.0 ∙ h.0, k.1 ∙ h.1, λ e. k.2 (h.2 e))

claimed_row-Kept : (b : Bool) (o : Option Payment) → Kept o (if b then claimed_row o else o)
claimed_row-Kept true none = tt
claimed_row-Kept true (some row) = (refl, refl, λ _. refl)
claimed_row-Kept false o = Kept-refl o

row_claimed-Kept : (c : Commit) (id j : String) (o : Option Payment) → Kept o (row_claimed c id j o)
row_claimed-Kept answered id j o = claimed_row-Kept (j == id) o
row_claimed-Kept rolled_back id j o = Kept-refl o
row_claimed-Kept unseen id j o = claimed_row-Kept (j == id) o

row_after-Kept :
    (c : Commit) (id j : String) (row : Payment) (o : Option Payment)
    → Kept o (row_after c id j row o)
row_after-Kept c id j row none = tt
row_after-Kept c id j row (some old) = Kept-refl (some old)

after-Kept :
    (id : String) (o : Op) (db : Database)
    → Kept (get id db.payments) (get id (after o db).payments)
unfolding after
after-Kept id (opens c) db = rw (open_ledger-payments c db) (Kept-refl _)
after-Kept id (reserves c j site price) db =
    rw (reserve-row c id j site price db) (row_after-Kept c id j _ (get id db.payments))
after-Kept id (claims c j) db =
    rw ((claim-row c id j db).0) (row_claimed-Kept c id j (get id db.payments))
after-Kept id (saves c state) db = rw (save_payout-payments c state db) (Kept-refl _)

unfoldable pub run : Database → List Op → Database
run db [] = db
run db (o ∷ os) = run (after o db) os

-- Over any history a row once written is never removed, moved to another site or price, or
-- unclaimed.
pub run-Kept :
    (id : String) (db : Database) (os : List Op)
    → Kept (get id db.payments) (get id (run db os).payments)
unfolding run
run-Kept id db [] = Kept-refl (get id db.payments)
run-Kept id db (o ∷ os) =
    Kept-trans (get id db.payments) _ _ (after-Kept id o db) (run-Kept id (after o db) os)

-- A reservation that does not let its caller pay again.
abbrev pub IsRefusal : Result LedgerError Reservation → Type 0
IsRefusal (ok r) = (r ≡ Reservation.claimed) ⊎ (r ≡ Reservation.mismatch)
IsRefusal (err _) = Unit

reservation_of_claimed :
    (o : Option Payment) (site : String) (price : ℕ)
    → claimed_of o ≡ true
    → IsRefusal (ok (reservation o site price))
unfolding reservation
reservation_of_claimed none site price h = cc
reservation_of_claimed (some row) site price h = ground arith

reserve_of_claimed :
    (c : Commit) (id site : String) (price : ℕ) (db : Database)
    → is_claimed id db ≡ true
    → IsRefusal (reserve c id site price db).0
unfolding reserve
reserve_of_claimed answered id site price db h =
    reservation_of_claimed (get id db.payments) site price h
reserve_of_claimed rolled_back id site price db h = tt
reserve_of_claimed unseen id site price db h = tt

Kept-claimed : (a b : Option Payment) → Kept a b → claimed_of a ≡ true → claimed_of b ≡ true
Kept-claimed none b k h = cc
Kept-claimed (some x) none k h = absurd k
Kept-claimed (some x) (some y) k h = k.2 h

-- Once a payment is claimed, no later reservation of it, for any site and price and after any
-- history, is answered `New` or `Pending`.
pub claimed_never_reopened :
    (c : Commit) (id site : String) (price : ℕ) (db : Database) (os : List Op)
    → is_claimed id db ≡ true
    → IsRefusal (reserve c id site price (run db os)).0
claimed_never_reopened c id site price db os h =
    reserve_of_claimed c id site price (run db os)
      (Kept-claimed (get id db.payments) _ (run-Kept id db os) h)

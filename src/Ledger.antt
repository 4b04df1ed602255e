-- ===== src/Ledger.antt =====
-- crates/geata/src/payments/ledger.rs: the durable record of payments, over redb. A write
-- transaction is atomic: its writes are in the database after a commit, and none of them otherwise.
pub mod Claims
use geata.Common.{
  ℕ, String, Bool, true, false, ◌&&◌, ◌||◌, not, Option, none, some, List, [], ◌∷◌, Result, ok, err,
  nat_eq, ◌==◌, string_Key, if◌then◌else◌,
}
use geata.Common.Map.{Map, get, insert}

-- A row of the table `payments_v1`: `(site, price, claimed)`.
pub record Payment : Type 0 where
  pub site : String
  pub price : ℕ
  pub is_claimed : Bool

-- `PayoutState` of payments/payout.rs, which the ledger stores.
pub record PayoutState : Type 0 where
  pub last_paid : ℕ
  pub retry_at : ℕ
  pub pending : Option String

pub record Database : Type 0 where
  pub version : Option ℕ
  pub payments : Map String Payment
  pub payout : Option PayoutState

-- How a write transaction on a blocking thread ends for its caller: with an answer; with an error
-- and nothing committed; or committed, the caller being cancelled before the answer.
pub data Commit : Type 0 where
  answered rolled_back unseen : Commit

pub data LedgerError : Type 0 where
  storage unsupported_version not_empty : LedgerError

pub data Reservation : Type 0 where
  new pending claimed mismatch : Reservation

unfoldable pub finish :
    {A : Type 0} → Commit → Database → Database → A → Result LedgerError A × Database
finish answered before after a = (ok a, after)
finish rolled_back before after a = (err storage, before)
finish unseen before after a = (err storage, after)

-- `Ledger::open`
unfoldable pub open_ledger : Commit → Database → Result LedgerError (Unit {0}) × Database
unfolding finish
open_ledger c db = elim db.version [
  | some v ↦ if nat_eq v 1 then finish c db db tt else (err unsupported_version, db)
  | none ↦ elim db.payments [
    | [] ↦ finish c db (record db { version = some 1 }) tt
    | _ ∷ _ ↦ (err not_empty, db)
  ]
]

-- The answer of `Ledger::reserve` for the row that it found.
unfoldable pub reservation : Option Payment → String → ℕ → Reservation
reservation none site price = Reservation.new
reservation (some old) site price =
    if not (old.site == site) || not (nat_eq old.price price)
    then Reservation.mismatch
    else if old.is_claimed
    then Reservation.claimed
    else Reservation.pending

-- The write of `Ledger::reserve`: a row for a new payment.
unfoldable pub reserved : Option Payment → Database → String → String → ℕ → Database
reserved (some _) db id site price = db
reserved none db id site price = record db {
  payments = insert id (record { site = site; price = price; is_claimed = false }) db.payments;
}

unfoldable pub reserve :
    Commit → String → String → ℕ → Database → Result LedgerError Reservation × Database
unfolding finish reservation reserved
reserve c id site price db =
    let existing = get id db.payments in
    finish c db (reserved existing db id site price) (reservation existing site price)

unfoldable pub claim_row : Option Payment → Database → String → Bool × Database
claim_row none db id = (false, db)
claim_row (some row) db id =
    if row.is_claimed
    then (false, db)
    else (true, record db { payments = insert id (record row { is_claimed = true }) db.payments })

-- `Ledger::claim`: admission is recorded before the handler runs.
unfoldable pub claim : Commit → String → Database → Result LedgerError Bool × Database
unfolding finish claim_row
claim c id db =
    let (granted, after) = claim_row (get id db.payments) db id in finish c db after granted

-- `Ledger::save_payout`
unfoldable pub save_payout :
    Commit → PayoutState → Database → Result LedgerError (Unit {0}) × Database
unfolding finish
save_payout c state db = finish c db (record db { payout = some state }) tt

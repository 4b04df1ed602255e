-- ===== src/Payout.antt =====
-- crates/geata/src/payments/payout.rs: sending Cashu from a mint's wallet to a payment request. What the
-- wallet library answers to one call is the record `PayoutAnswers`; `sends` records each `confirm`.
pub mod Request
pub mod Policies
pub mod Steps
pub mod Guard
pub mod History
pub mod Due
use geata.Common.{
  ℕ, ◌+◌, ◌%◌, ◌^◌, String, Bool, true, false, ◌&&◌, ◌||◌, not, Option, none, some, List, [], ◌∷◌,
  Result, ok, err, ltb, leb, if◌then◌else◌, is_some, i64_max, saturating_add,
}
use geata.Common.Exec.{Exec, pure, raise, modify, unless, ◌>>=◌, ◌>>◌}
use geata.Ledger.{Database, Commit, LedgerError, PayoutState, save_payout, open_ledger}
use geata.Payments.Monad.{
  MintWallet, Answer, answer, failure, cancelled, Collect, await, always, on_ledger,
}
use geata.Payments.{Report, flag_recovery, recover}
use geata.Payments
use geata.Payout.Policies.{PayoutPolicy}

-- A send that the wallet library prepared, with its operation and its total.
pub record Prepared : Type 0 where
  pub operation_id : String
  pub total_amount : ℕ

-- A call of `confirm`, and whether it reported that the payment was delivered.
pub record Send : Type 0 where
  pub total : ℕ
  pub acknowledged : Bool

pub record Payer : Type 0 where
  pub wallet : MintWallet
  pub sends : List Send

pub data PayoutError : Type 0 where
  payout_failed : PayoutError

abbrev pub Payout : Type 0 → Type 0
Payout A = Exec Payer PayoutError A

pub record PayoutAnswers : Type 0 where
  -- Another call holds the wallet.
  pub busy : Bool
  pub ledger_opened : Commit
  pub wallet_opened : Answer (Unit {0})
  pub now : ℕ
  -- Whether the ledger could be read.
  pub is_read : Bool
  pub initialized : Commit
  pub recovered : Answer Report
  pub balance : Answer ℕ
  pub cooled : Commit
  pub prepared : Answer Prepared
  pub cancelled_send : Answer (Unit {0})
  pub guarded : Commit
  pub confirmed : Answer (Unit {0})
  pub paid_at : ℕ
  pub finished : Commit

module _ {E A : Type 0} where
  abbrev pub with_wallet : Payer → Result E A × MintWallet → Result PayoutError A × Payer
  with_wallet p (ok a, w) = (ok a, record p { wallet = w })
  with_wallet p (err e, w) = (err payout_failed, record p { wallet = w })

-- A call of the wallet; any of its errors fails the payout.
abbrev pub in_wallet : {A : Type 0} → Collect A → Payout A
in_wallet m p = with_wallet p (m p.wallet)

abbrev at_least : Option ℕ → ℕ → Bool
at_least none balance = false
at_least (some n) balance = leb n balance

abbrev elapsed : Option ℕ → ℕ → ℕ → Bool
elapsed none last now = false
elapsed (some n) last now = leb (saturating_add i64_max last n) now

-- `PayoutPolicy::due`
unfoldable pub due : PayoutPolicy → PayoutState → ℕ → ℕ → Bool
due policy state now balance =
    not (is_some state.pending)
    && (leb state.retry_at now
        && (leb policy.amount balance
            && (at_least policy.threshold balance || elapsed policy.interval state.last_paid now)))

-- `open`, for a wallet that is not in memory.
unfoldable pub open_wallet : PayoutAnswers → Collect (Unit {0})
open_wallet a w =
    unless w.is_open
      (on_ledger (open_ledger a.ledger_opened)
        >> (await always a.wallet_opened
            >> modify (λ v. record v { is_open = true; needs_recovery = true })))
      w

abbrev pub logged : Send → Payer → Payer
logged s p = record p { sends = s ∷ p.sends }

-- `PreparedPayment::confirm`, which may have delivered the payment whatever it answers.
unfoldable pub confirm : ℕ → Answer (Unit {0}) → Payout (Unit {0})
confirm total (answer _) p = (ok tt, logged (record { total = total; acknowledged = true }) p)
confirm total (failure e) p =
    (err payout_failed, logged (record { total = total; acknowledged = false }) p)
confirm total cancelled p =
    (err payout_failed, logged (record { total = total; acknowledged = false }) p)

abbrev pub save : Commit → PayoutState → Payout (Unit {0})
save c state = in_wallet (on_ledger (save_payout c state))

-- The send costs too much: it is given up.
unfoldable pub cancel_send : PayoutAnswers → Payout (Unit {0})
cancel_send a =
    in_wallet (await always a.cancelled_send)
    >> (in_wallet (flag_recovery false) >> raise payout_failed)

-- The guard is durable before the send is confirmed, and removed only after it is acknowledged. After a failed
-- save the source also cancels the prepared send in the wallet library, and ignores what that answers.
unfoldable pub deliver : PayoutAnswers → PayoutState → Prepared → Payout (Unit {0})
unfolding confirm
deliver a state prepared =
    save a.guarded (record state { pending = some prepared.operation_id })
    >> (confirm prepared.total_amount a.confirmed
        >> (save a.finished (record state { pending = none; last_paid = a.paid_at })
            >> in_wallet (flag_recovery false)))

-- `MintWallet::send_request`
unfoldable pub send_request : ℕ → PayoutAnswers → PayoutState → Payout (Unit {0})
unfolding deliver cancel_send
send_request max_total a state =
    in_wallet (flag_recovery true)
    >> (in_wallet (await always a.prepared) >>= λ (prepared : Prepared).
        if ltb max_total prepared.total_amount then cancel_send a else deliver a state prepared)

abbrev pub initial : ℕ → PayoutState
initial now = record { last_paid = now; retry_at = 0; pending = none }

abbrev pub stored_state : PayoutAnswers → Option PayoutState → Payout PayoutState
stored_state a none = save a.initialized (initial a.now) >> pure (initial a.now)
stored_state a (some state) = pure state

unfoldable pub read_state : PayoutAnswers → Payout PayoutState
read_state a p =
    (if a.is_read then stored_state a p.wallet.ledger.payout else raise payout_failed) p

-- The cooldown is durable before funds are prepared.
unfoldable pub attempt : PayoutPolicy → PayoutAnswers → PayoutState → Payout (Unit {0})
unfolding send_request
attempt policy a state =
    let cooled = record state { retry_at = saturating_add i64_max a.now 60 } in
    save a.cooled cooled >> send_request (policy.amount + policy.max_fee) a cooled

unfoldable pub consider : PayoutPolicy → PayoutAnswers → PayoutState → Payout (Unit {0})
unfolding attempt due
consider policy a state =
    if is_some state.pending || ltb a.now state.retry_at
    then pure tt
    else (in_wallet (recover a.recovered)
        >> (in_wallet (await always a.balance) >>= λ balance.
            if not (due policy state a.now balance) then pure tt else attempt policy a state))

-- `Payments::automatic_payout`
unfoldable pub automatic_payout : PayoutPolicy → PayoutAnswers → Payout (Unit {0})
unfolding open_wallet read_state consider
automatic_payout policy a =
    if a.busy then pure tt else (in_wallet (open_wallet a) >> (read_state a >>= consider policy a))

abbrev pub saved_or_default : Option PayoutState → PayoutState
saved_or_default none = record { last_paid = 0; retry_at = 0; pending = none }
saved_or_default (some state) = state

unfoldable pub read_or_default : PayoutAnswers → Payout PayoutState
read_or_default a p =
    (if a.is_read then pure (saved_or_default p.wallet.ledger.payout) else raise payout_failed) p

abbrev pub pay_unless_pending : ℕ → PayoutAnswers → PayoutState → Payout (Unit {0})
pay_unless_pending max_total a state =
    if is_some state.pending then raise payout_failed else send_request max_total a state

-- `Payments::pay`, for the amount that `validate_request` answers; it opens a wallet of its own.
unfoldable pub pay : ℕ → ℕ → PayoutAnswers → Payout (Unit {0})
unfolding open_wallet read_or_default send_request
pay amount max_total a p =
    (if ltb max_total amount
        then raise payout_failed
        else (in_wallet (open_wallet a)
            >> (in_wallet (recover a.recovered)
                >> (read_or_default a >>= pay_unless_pending max_total a))))
      (record p { wallet = record p.wallet { is_open = false } })

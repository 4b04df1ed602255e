-- ===== src/Payments/Monad.antt =====
-- The state that `MintWallet` methods of crates/geata/src/payments/mod.rs change, and how they end.
use geata.Common.{Bool, Result, ok, err}
use geata.Common.Exec.{Exec}
use geata.Ledger.{Database, LedgerError}

-- The errors of the wallet library, as far as the program tells them apart.
pub data CdkError : Type 0 where
  token_already_spent could_not_verify_dleq dleq_proof_not_provided amount_key any_other : CdkError

pub data PaymentError : Type 0 where
  invalid unavailable : PaymentError

-- A mint's wallet: the ledger is on disk, `needs_recovery` in memory while the wallet is open.
pub record MintWallet : Type 0 where
  pub is_open : Bool
  pub needs_recovery : Bool
  pub ledger : Database

-- How an awaited call of the wallet library ends; after 30 seconds the caller is cancelled.
pub data Answer (A : Type 0) : Type 0 where
  answer : A → Answer A
  failure : CdkError → Answer A
  cancelled : Answer A

abbrev pub Collect : Type 0 → Type 0
Collect A = Exec MintWallet PaymentError A

unfoldable pub classify_error : CdkError → PaymentError
classify_error token_already_spent = invalid
classify_error could_not_verify_dleq = invalid
classify_error dleq_proof_not_provided = invalid
classify_error amount_key = invalid
classify_error any_other = unavailable

-- `From<anyhow::Error>`: any other error says nothing of the token.
abbrev pub always : CdkError → PaymentError
always _ = unavailable

module _ {A : Type 0} where
  unfoldable pub await : (CdkError → PaymentError) → Answer A → Collect A
  await on_error (answer a) w = (ok a, w)
  await on_error (failure e) w = (err (on_error e), w)
  await on_error cancelled w = (err unavailable, w)

  abbrev pub with_ledger :
      MintWallet → Result LedgerError A × Database → Result PaymentError A × MintWallet
  with_ledger w (ok a, db) = (ok a, record w { ledger = db })
  with_ledger w (err e, db) = (err unavailable, record w { ledger = db })

  -- A call of the ledger; its errors make the payment unavailable.
  unfoldable pub on_ledger : (Database → Result LedgerError A × Database) → Collect A
  on_ledger call w = with_ledger w (call w.ledger)

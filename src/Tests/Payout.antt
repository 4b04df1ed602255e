-- ===== src/Tests/Payout.antt =====
-- Tests of payouts.
use geata.Common.{◌≡◌, ◌≤◌, refl, none, some, true, false, [], ◌∷◌, List, arith}
use geata.Ledger.{answered}
use geata.Ledger.Claims.{to_ℕ}
use geata.Payments.Monad.{answer, cancelled}
use geata.Common.Text.{text}
use geata.Payout.Request.{PaymentRequest, nostr}
use geata.Payout.Policies.{PayoutPolicy}
use geata.Payout.{Payer, PayoutAnswers, automatic_payout}
use geata.Payout.Guard.{uncertain, is_pending}
use geata.Payout.History.{
  Event, automatic, pays, restarts, run, uncertain_once, pending_never_resent,
}
use geata.Payout.Due.{IsDue, recorded, automatic_payout-IsDue}

abbrev reusable : PaymentRequest
reusable = record {
  unit = none;
  mint_preferred = none;
  mints = [];
  amount = none;
  has_methods = false;
  single_use = none;
  transports = record { kind = nostr; target = text "profile" } ∷ [];
}

abbrev weekly : PayoutPolicy
weekly = record {
  mint = text "https://mint";
  request = reusable;
  amount = 100;
  max_fee = 2;
  interval = some 604_800;
  threshold = some 500;
}

abbrev fresh : Payer
fresh = record {
  wallet = record {
    is_open = false;
    needs_recovery = false;
    ledger = record { version = none; payments = []; payout = none };
  };
  sends = [];
}

-- The balance reaches the threshold, and the recipient takes the payment.
abbrev delivered : PayoutAnswers
delivered = record {
  busy = false;
  ledger_opened = answered;
  wallet_opened = answer tt;
  now = 1_000_000;
  is_read = true;
  initialized = answered;
  recovered = answer (record { failed = 0; skipped = 0 });
  balance = answer 600;
  cooled = answered;
  prepared = answer (record { operation_id = "send"; total_amount = 101 });
  cancelled_send = answer tt;
  guarded = answered;
  confirmed = answer tt;
  paid_at = 1_000_001;
  finished = answered;
}

-- The call is cancelled while the recipient is asked to take the payment.
abbrev cut_off : PayoutAnswers
cut_off = record delivered { confirmed = cancelled }

abbrev interrupted : List Event
interrupted =
    automatic weekly delivered
    ∷ automatic weekly cut_off
    ∷ restarts
    ∷ automatic weekly delivered
    ∷ pays 5 6 delivered
    ∷ []

uncertain_once_example :
    (uncertain (run fresh interrupted).sends ≤ 1)
    × (uncertain (run fresh interrupted).sends
        ≤ to_ℕ (is_pending (run fresh interrupted).wallet.ledger.payout))
uncertain_once_example = uncertain_once fresh interrupted (omega arith)

abbrev stopped : Payer
stopped = record fresh {
  wallet = record {
    is_open = false;
    needs_recovery = false;
    ledger = record {
      version = some 1;
      payments = [];
      payout = some (record { last_paid = 0; retry_at = 0; pending = some "send" });
    };
  };
}

pending_never_resent_example :
    ((run stopped interrupted).sends ≡ [])
    × (is_pending (run stopped interrupted).wallet.ledger.payout ≡ true)
pending_never_resent_example = pending_never_resent stopped interrupted refl

automatic_payout-IsDue_example :
    IsDue weekly delivered
      (recorded delivered none)
      []
      (automatic_payout weekly delivered fresh).1.sends
automatic_payout-IsDue_example = automatic_payout-IsDue weekly delivered fresh

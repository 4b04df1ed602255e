-- ===== src/Tests/Payments.antt =====
-- Tests of the payments.
use geata.Common.{
  String, Option, ◌≤◌, ◌≡◌, refl, none, some, true, false, string_Key, List, [], ◌∷◌, ok,
}
use geata.Common.Map.{get, insert}
use geata.Common.Text.{text, text_eq}
use geata.Common.Text.{text, text_eq}
use geata.Payments.Price.{PaymentPolicy}
use geata.Payments.Monad.{MintWallet, answer, await, on_ledger, classify_error}
use geata.Payments.TokenId.{Bytes}
use geata.Payments.{
  Token, sat, Answers, validate_token, parsed_token, is_acceptable, token_id, collect,
  collect_token, open_wallet, recover, finish_recovery, check_proofs, token_value, reserve_payment,
  after_reservation, redeem, settle_received, claim_payment,
}
use geata.Payments.Admission.{Event, collects, restarts, accepted, collected_once}
use geata.Payments.Redeemed.{IsWorth, IsPaid, collect-IsPaid}
use geata.Ledger.{
  Database, answered, unseen, Reservation, reserve, claim, open_ledger, reservation, reserved,
  finish, claim_row,
}
use geata.Ledger.Claims.{
  Op, opens, reserves, claims, grants, is_claimed, single_use, Kept, run, run-Kept, IsRefusal,
  claimed_never_reopened,
}

abbrev empty_ledger : Database
empty_ledger = record { version = none; payments = []; payout = none }

abbrev two_claims : List Op
two_claims =
    opens answered
    ∷ reserves answered "token" "site" 2
    ∷ claims unseen "token"
    ∷ claims answered "token"
    ∷ []

single_use_example :
    (grants "token" empty_ledger two_claims ≤ 1)
    × (is_claimed "token" empty_ledger ≡ true → grants "token" empty_ledger two_claims ≡ 0)
single_use_example = single_use "token" empty_ledger two_claims

abbrev claimed_ledger : Database
claimed_ledger = record {
  version = some 1;
  payments = ("token", record { site = "site"; price = 2; is_claimed = true }) ∷ [];
  payout = none;
}

run-Kept_example :
    Kept
      (get "token" claimed_ledger.payments)
      (get "token" (run claimed_ledger two_claims).payments)
run-Kept_example = run-Kept "token" claimed_ledger two_claims

claimed_never_reopened_example :
    IsRefusal (reserve answered "token" "other" 3 (run claimed_ledger two_claims)).0
unfolding get
claimed_never_reopened_example =
    claimed_never_reopened answered "token" "other" 3 claimed_ledger two_claims refl

-- The calls of the source's own test of the ledger.
reserve_answers :
    ((reserve answered "token" "site" 2 claimed_ledger).0 ≡ ok Reservation.claimed)
    × ((reserve answered "token" "site" 3 claimed_ledger).0 ≡ ok Reservation.mismatch)
    × ((reserve answered "fresh" "site" 2 claimed_ledger).0 ≡ ok Reservation.new)
    × ((claim answered "missing" claimed_ledger).0 ≡ ok false)
unfolding reserve claim get
reserve_answers = (refl, refl, refl, refl)

abbrev two_sat : Token
two_sat = record {
  unit = some sat;
  mint_url = some (text "https://mint.example");
  value = some 3;
  spending_conditions = some 0;
  secrets = text "secret" ∷ [];
}

abbrev parse : String → Option Token
parse _ = some two_sat

abbrev id_of : Bytes → String
id_of _ = "digest"

abbrev policy : PaymentPolicy
policy = record { price = 2; mint = text "https://mint.example" }

abbrev answers : Answers
answers = record {
  busy = false;
  ledger_opened = answered;
  wallet_opened = answer tt;
  recovered = answer (record { failed = 0; skipped = 0 });
  dleq_verified = answer tt;
  keysets = answer tt;
  has_proofs = true;
  fees = answer 1;
  reserved = answered;
  transactions = answer [];
  received = answer 2;
  claimed = answered;
}

abbrev closed_wallet : MintWallet
closed_wallet = record { is_open = false; needs_recovery = false; ledger = empty_ledger }

abbrev paid_run : MintWallet
paid_run = (collect parse id_of "site" policy "cashuBtoken" answers closed_wallet).1

collect-IsPaid_example :
    (token : Token) × (validate_token parse policy "cashuBtoken" ≡ ok token)
    × IsWorth policy token answers
    × IsPaid policy (token_id id_of token) answers
unfolding collect validate_token parsed_token is_acceptable collect_token open_wallet on_ledger
    open_ledger await recover finish_recovery check_proofs token_value reserve reserve_payment
    reservation reserved finish after_reservation get insert redeem settle_received claim_payment
    claim claim_row classify_error token_id text_eq
collect-IsPaid_example =
    collect-IsPaid parse id_of "site" policy "cashuBtoken" answers closed_wallet paid_run refl

abbrev replays : List Event
replays =
    collects "site" policy "cashuBtoken" answers
    ∷ restarts
    ∷ collects "site" policy "cashuBtoken" answers
    ∷ []

collected_once_example :
    (accepted parse id_of "digest" closed_wallet replays ≤ 1)
    × (is_claimed "digest" empty_ledger ≡ true
        → accepted parse id_of "digest" closed_wallet replays ≡ 0)
collected_once_example = collected_once parse id_of "digest" closed_wallet replays

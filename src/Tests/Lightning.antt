-- ===== src/Tests/Lightning.antt =====
-- Tests of Lightning settlements.
use geata.Common.{ok, ◌++◌, refl, ◌≡◌, ◌≤◌, some, none, true, Option, [], ◌∷◌, List, arith}
use geata.Common.Text.{Text, text, text_Key, text_eq, to_ascii_lowercase}
use geata.Lightning.Policies.{Policy, LdkReceiverConfig, ldk, default_protocols}
use geata.Common.Map.{get, insert}
use geata.Ledger.{answered}
use geata.Lightning.{Root, Invoice, Payment, Settlements, verify, claim, prune, key_of}
use geata.Lightning.Terms.{Requirements}
use geata.Lightning.Ends.{kept_until}
use geata.Lightning.L402.{
  Crypto, Macaroon, first_party, bytes_of, decode_hash, hex, digest, verify_credential, mint_l402,
  mint_macaroon,
}
use geata.Lightning.L402
use geata.Lightning.L402.Redeemed.{redemption, mint_l402-redeemable}
use geata.Lightning.L402.Restricted.{IsRestricted, verify-IsRestricted}
use geata.Lightning.Steps.{
  Tables, Event, verifies, presents, claims, prunes, after, accepts, accepted,
}
use geata.Lightning.Once.{settled_once}

abbrev hash : Text
hash = text "0707070707070707070707070707070707070707070707070707070707070707"

abbrev shared_key : Text
shared_key = text "main:" ++ hash

abbrev invoice : Invoice
invoice = record {
  signed = true;
  payee = text "node";
  bitcoin = true;
  testnet = true;
  amount_milli_satoshis = some 25_000;
  description_hash = some (text "request");
  expiry_time = 300;
  created = 1_000;
  payment_hash = hash;
}

abbrev read_invoice : Text → Option Invoice
read_invoice _ = some invoice

abbrev node : LdkReceiverConfig
node = record {
  endpoint = text "https://node";
  macaroon_file = text "/macaroon";
  tls_cert_file = text "/cert";
  pay_to = text "node";
  network = text "main";
  expiry_seconds = 300;
}

abbrev policy : Policy
policy = record {
  amount_msat = 25_000;
  receiver = ldk node;
  origin = text "https://example.com";
  headers = [];
  protocols = default_protocols;
}

-- The terms, with the usual transfer method left out.
abbrev accepted_terms : Requirements
accepted_terms = record {
  scheme = text "exact";
  network = text "main";
  amount = text "25000";
  asset = text "BTC";
  pay_to = text "node";
  max_timeout_seconds = 300;
  extra = record {
    asset_transfer_method = none;
    payment_flow = text "upfront";
    request_hash = text "request";
    request_binding_profile = text "http:1";
    headers = [];
    invoice = text "invoice";
  };
}

abbrev read_payment : Text → Option Payment
read_payment _ =
    some (record { version = 2; accepted = accepted_terms; preimage = text "preimage" })

abbrev hash_preimage : Text → Option Text
hash_preimage _ = some hash

abbrev macaroon : Macaroon
macaroon = record {
  identifier = 0 ∷ 0 ∷ (bytes_of hash ++ bytes_of hash);
  caveats =
      first_party (text "services=geata:0")
      ∷ first_party (text "geata_request=request")
      ∷ first_party (text "geata_terms=")
      ∷ first_party (text "geata_valid_until=1361")
      ∷ [];
  signature = [];
}

abbrev crypto : Crypto
crypto = record {
  base64 = λ s. some (2 ∷ s);
  deserialize = λ _. some macaroon;
  encode = λ _. text "token";
  sha256 = λ s. s;
  hmac = λ _ _. [];
  serialize = λ _ _. [];
  verifies = λ _ _ _. true;
}

abbrev paid_credential : Text
paid_credential = text "token:" ++ hash

abbrev table : Settlements
table = record {
  spent = [];
  roots = (digest crypto macaroon.identifier, record { key = []; valid_before = 1361 }) ∷ [];
  quotes = 0;
}

abbrev start : Tables
start = record { db = table; pending = [] }

-- The credential and two payments are verified, then claim; the last claim comes when the row is pruned.
abbrev replays : List Event
replays =
    presents policy (text "request") paid_credential 1_150
    ∷ verifies policy (text "request") (text "payment") 1_100
    ∷ verifies policy (text "request") (text "payment") 1_102
    ∷ claims 0 (ok tt) answered 1_155
    ∷ claims 1 (ok tt) answered 1_155
    ∷ prunes 4_960
    ∷ claims 0 (ok tt) answered 4_960
    ∷ []

replays_accepted :
    accepted read_invoice read_payment hash_preimage crypto shared_key start replays ≡ 1
unfolding accepted accepts verify verify_credential text_eq claim prune after insert key_of
replays_accepted = refl

settled_once_example :
    (accepted read_invoice read_payment hash_preimage crypto shared_key start replays ≤ 1)
    × ((get shared_key table.spent ≡ some (kept_until 1_300))
        → accepted read_invoice read_payment hash_preimage crypto shared_key start replays ≡ 0)
settled_once_example =
    settled_once read_invoice read_payment hash_preimage crypto shared_key 1_300 replays start 0
      (omega arith, (omega arith, (omega arith, (omega arith, tt))))
      (
        ((λ m p e f g. refl), tt),
        (
          λ encoded i e v h. ground (arith, e),
          (λ encoded i e v h. ground (arith, e), (tt, (tt, (tt, (tt, tt))))),
        ),
      )
      refl

abbrev root : Root
root = record { key = []; valid_before = 1361 }

verify-IsRestricted_example : IsRestricted crypto policy (text "request") macaroon root 1_150
unfolding L402.verify text_eq
verify-IsRestricted_example =
    verify-IsRestricted crypto policy (text "request") macaroon (bytes_of hash) root 1_150 refl

abbrev challenge : Text
challenge = text "L402 macaroon=\"token\", invoice=\"invoice\""

abbrev empty_table : Settlements
empty_table = record { spent = []; roots = []; quotes = 0 }

mint_l402-redeemable_example :
    (challenge ≡ challenge)
    × (verify_credential crypto policy
          (text "request")
          (redemption crypto policy (text "request") invoice [] (bytes_of hash) hash)
          1_150
          (mint_l402 crypto policy
            (text "request")
            (text "invoice")
            invoice
            []
            (bytes_of hash)
            answered
            empty_table).1.roots
        ≡ some (text "main:" ++ hex (bytes_of hash), 4_960))
unfolding mint_l402 text_eq bytes_of decode_hash to_ascii_lowercase L402.terms
mint_l402-redeemable_example =
    mint_l402-redeemable crypto policy (text "request") invoice [] (bytes_of hash) (text "invoice")
      challenge hash answered empty_table 1_150 (λ n f e. refl)
      (record { bytes = text "token"; decoded = refl; read = refl; no_colon = refl })
      (record { preimage = bytes_of hash; is_proof = refl; is_preimage = refl }) refl refl
      (omega arith) (omega arith) refl

-- ===== src/Lightning.antt =====
-- crates/geata/src/payments/lightning: local settlement of Lightning payments. A parser of invoices, the
-- decoder of a payment header, the hash of a preimage and the clock are arguments.
pub mod Policies
pub mod Terms
pub mod Spent
pub mod Steps
pub mod Over
pub mod Once
pub mod Ends
pub mod L402
use geata.Common.{
  ℕ, ◌+◌, ◌-◌, ◌<◌, ◌*◌, Bool, true, false, ◌&&◌, ◌||◌, not, Option, none, some, List, [], ◌∷◌,
  ◌++◌, Result, ok, err, ltb, leb, nat_eq, ◌==◌, if◌then◌else◌, saturating_add, u64_max, is_some,
  length,
}
use geata.Common.Map.{Map, get, insert, retain}
use geata.Common.Text.{Text, text_Key, byte_length}
use geata.Lightning.Policies.{ReceiverConfig, ldk, cashu, Policy, mainnet, receiver_network, ldk_of}
use geata.Lightning.Terms.{Requirements, is_required}
use geata.Ledger.{Commit, answered, rolled_back, unseen}

abbrev pub skew : ℕ
skew = 60

abbrev pub max_payment_header : ℕ
max_payment_header = 24 * 1024

abbrev pub max_challenge_records : ℕ
max_challenge_records = 10_000

-- What the accessors of a parsed invoice answer; the description is none unless it is a hash.
pub record Invoice : Type 0 where
  pub signed : Bool
  pub payee : Text
  pub bitcoin : Bool
  pub testnet : Bool
  pub amount_milli_satoshis : Option ℕ
  pub description_hash : Option Text
  pub expiry_time : ℕ
  pub created : ℕ
  pub payment_hash : Text

abbrev is_payee : ReceiverConfig → Invoice → Bool
is_payee (ldk node) invoice = invoice.payee == node.pay_to
is_payee (cashu _ _) invoice = true

abbrev is_currency : Bool → Invoice → Bool
is_currency true invoice = invoice.bitcoin
is_currency false invoice = invoice.testnet

abbrev is_amount : ℕ → Option ℕ → Bool
is_amount n none = false
is_amount n (some m) = nat_eq m n

abbrev is_hash : Text → Option Text → Bool
is_hash hash none = false
is_hash hash (some h) = h == hash

abbrev is_request : ReceiverConfig → Text → Invoice → Bool
is_request (ldk node) hash invoice =
    is_hash hash invoice.description_hash && nat_eq invoice.expiry_time node.expiry_seconds
is_request (cashu _ _) hash invoice = true

-- The window in which an invoice counts, `grace` seconds after its end included.
unfoldable pub is_current : Invoice → ℕ → ℕ → Bool
is_current invoice time grace =
    leb invoice.created (saturating_add u64_max time skew)
    && (leb (invoice.created + invoice.expiry_time) u64_max
        && (ltb time (invoice.created + invoice.expiry_time)
            || (ltb 0 grace
                && leb time
                    (saturating_add u64_max (invoice.created + invoice.expiry_time) grace))))

unfoldable pub is_valid : Policy → Text → ℕ → ℕ → Invoice → Bool
unfolding is_current receiver_network
is_valid policy hash time grace invoice =
    invoice.signed
    && (is_payee policy.receiver invoice
        && (is_currency (receiver_network policy.receiver == mainnet) invoice
            && (is_amount policy.amount_msat invoice.amount_milli_satoshis
                && (is_request policy.receiver hash invoice && is_current invoice time grace))))

abbrev if_valid : Policy → Text → ℕ → ℕ → Option Invoice → Option Invoice
if_valid policy hash time grace none = none
if_valid policy hash time grace (some invoice) =
    if is_valid policy hash time grace invoice then some invoice else none

-- A decoded payment header, with the preimage of its payload.
pub record Payment : Type 0 where
  pub version : ℕ
  pub accepted : Requirements
  pub preimage : Text

pub data LightningError : Type 0 where
  invalid unavailable : LightningError

-- The root key of an L402 credential, and when the credential ends.
pub record Root : Type 0 where
  pub key : Text
  pub valid_before : ℕ

-- The tables of the settlements: the spent payments, and how many other records there are.
pub record Settlements : Type 0 where
  pub spent : Map Text ℕ
  pub roots : Map Text Root
  pub quotes : ℕ

module _ (parse : Text → Option Invoice) where
  unfoldable pub validate_invoice : Policy → Text → Text → ℕ → ℕ → Option Invoice
  unfolding is_valid
  validate_invoice policy hash encoded time grace = if_valid policy hash time grace (parse encoded)

unfoldable pub key_of : Policy → Invoice → Text
unfolding receiver_network
key_of policy invoice = receiver_network policy.receiver ++ (b':' ∷ invoice.payment_hash)

abbrev pub retain_until : Invoice → ℕ
retain_until invoice =
    saturating_add u64_max (saturating_add u64_max invoice.created invoice.expiry_time)
      (skew + 3600)

module _ (parse : Text → Option Invoice) (decode : Text → Option Payment)
    (hash_of : Text → Option Text) where
  abbrev proven : Policy → Payment → Option Invoice → Option (Text × ℕ)
  proven policy payment none = none
  proven policy payment (some invoice) =
      if is_hash invoice.payment_hash (hash_of payment.preimage)
      then some (key_of policy invoice, retain_until invoice)
      else none

  abbrev accept : Policy → Text → ℕ → Option Payment → Option (Text × ℕ)
  accept policy hash time none = none
  accept policy hash time (some payment) =
      if not (nat_eq payment.version 2) || not (is_required policy hash payment.accepted)
      then none
      else proven policy payment
          (validate_invoice parse policy hash payment.accepted.extra.invoice time skew)

  -- The key under which the payment is spent, and how long it must be kept.
  unfoldable pub verify : Policy → Text → Text → ℕ → Option (Text × ℕ)
  unfolding validate_invoice ldk_of byte_length is_required
  verify policy hash encoded time =
      if not (is_some (ldk_of policy.receiver)) || ltb max_payment_header (byte_length encoded)
      then none
      else accept policy hash time (decode encoded)

abbrev committed :
    {A : Type 0}
    → Commit
    → Settlements
    → Settlements
    → Result LightningError A
    → Result LightningError A × Settlements
committed answered before after r = (r, after)
committed rolled_back before after r = (err unavailable, before)
committed unseen before after r = (err unavailable, after)

abbrev spend :
    Commit → Text → ℕ → Option ℕ → Settlements → Result LightningError (Unit {0}) × Settlements
spend c key until (some _) db = committed c db db (err invalid)
spend c key until none db = committed c db (record db { spent = insert key until db.spent }) (ok tt)

-- `Lightning::claim`, at the time that its transaction reads.
unfoldable pub claim :
    Commit → ℕ → Text → ℕ → Settlements → Result LightningError (Unit {0}) × Settlements
claim c now key until db =
    if leb until now then (err unavailable, db) else spend c key until (get key db.spent) db

unfoldable pub prune : ℕ → Settlements → Settlements
unfolding retain
prune time db = record db {
  roots = retain (λ _ root. ltb time root.valid_before) db.roots;
  spent = retain (λ _ expiry. ltb time expiry) db.spent;
}

unfoldable pub check_capacity : Settlements → ℕ → Bool
check_capacity db needed =
    leb (saturating_add u64_max (saturating_add u64_max (length db.roots) db.quotes) needed)
      max_challenge_records

module _ (parse : Text → Option Invoice) (decode : Text → Option Payment)
    (hash_of : Text → Option Text) where
  abbrev claim_verified :
      Commit → ℕ → Option (Text × ℕ) → Settlements → Result LightningError (Unit {0}) × Settlements
  claim_verified c now none db = (err invalid, db)
  claim_verified c now (some (key, until)) db = claim c now key until db

  -- `Lightning::settle`: verified at `time`, claimed at `now`.
  unfoldable pub settle :
      Policy
      → Text
      → Text
      → ℕ
      → Commit
      → ℕ
      → Settlements
      → Result LightningError (Unit {0}) × Settlements
  unfolding verify claim
  settle policy hash encoded time c now db =
      claim_verified c now (verify parse decode hash_of policy hash encoded time) db

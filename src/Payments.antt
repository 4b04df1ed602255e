-- ===== src/Payments.antt =====
-- crates/geata/src/payments/mod.rs: redeeming a Cashu token for one request. The wallet library, the
-- mint and the token parser are not part of the program: what they answer to one call of `collect`
-- is the record `Answers`. Calls for one mint are serialized by the wallet's lock.
pub mod Price
pub mod Monad
pub mod TokenId
pub mod Admission
pub mod Redeemed
use Prim.Native.String.{len, ◌++◌ as ◌<>◌}
use text.Mathlib.Text.{starts_with}
use geata.Payments.Price.{PaymentPolicy}
use geata.Common.Text.{Text, text_Key}
use geata.Common.{
  ℕ, ◌-◌, ◌*◌, String, Bool, true, false, ◌&&◌, ◌||◌, not, Option, none, some, List, [], ◌∷◌,
  Result, ok, err, ltb, leb, nat_eq, any, ◌==◌, string_Key, if◌then◌else◌,
}
use geata.Common.Exec.{Exec, pure, raise, lift, modify, unless, ◌>>=◌, ◌>>◌}
use geata.Ledger.{
  Database, Commit, LedgerError, Reservation, new, pending, claimed, mismatch, reserve, claim,
  open_ledger,
}
use geata.Payments.Monad.{
  CdkError, PaymentError, invalid, unavailable, MintWallet, Answer, Collect, classify_error, always,
  await, on_ledger,
}
use geata.Payments.TokenId.{Bytes, framed, sort}

abbrev pub max_token_bytes : ℕ
max_token_bytes = 16 * 1024

pub data CurrencyUnit : Type 0 where
  sat msat other : CurrencyUnit

abbrev pub is_sat : CurrencyUnit → Bool
is_sat sat = true
is_sat _ = false

-- What the accessors of a parsed token answer, `none` for an error.
pub record Token : Type 0 where
  pub unit : Option CurrencyUnit
  pub mint_url : Option Text
  pub value : Option ℕ
  pub spending_conditions : Option ℕ
  pub secrets : List Bytes

pub record Transaction : Type 0 where
  pub memo : Option String
  pub completed : Bool
  pub amount : ℕ

-- The sagas that a recovery could not finish.
pub record Report : Type 0 where
  pub failed : ℕ
  pub skipped : ℕ

-- What happens outside the program during one call.
pub record Answers : Type 0 where
  -- Another call holds the wallet.
  pub busy : Bool
  pub ledger_opened : Commit
  pub wallet_opened : Answer (Unit {0})
  pub recovered : Answer Report
  pub dleq_verified : Answer (Unit {0})
  pub keysets : Answer (Unit {0})
  -- Whether the token's proofs fit the keysets.
  pub has_proofs : Bool
  pub fees : Answer ℕ
  pub reserved : Commit
  pub transactions : Answer (List Transaction)
  pub received : Answer ℕ
  pub claimed : Commit

abbrev is_unit : Option CurrencyUnit → Bool
is_unit none = false
is_unit (some u) = is_sat u

abbrev is_mint : PaymentPolicy → Option Text → Bool
is_mint policy none = false
is_mint policy (some url) = url == policy.mint

abbrev is_worth : PaymentPolicy → Option ℕ → Bool
is_worth policy none = false
is_worth policy (some value) = leb policy.price value

abbrev is_unconditional : Option ℕ → Bool
is_unconditional none = false
is_unconditional (some n) = nat_eq n 0

unfoldable pub is_acceptable : PaymentPolicy → Token → Bool
is_acceptable policy token =
    is_unit token.unit
    && (is_mint policy token.mint_url
        && (is_worth policy token.value && is_unconditional token.spending_conditions))

unfoldable pub parsed_token : PaymentPolicy → Option Token → Result PaymentError Token
parsed_token policy none = err invalid
parsed_token policy (some token) = if is_acceptable policy token then ok token else err invalid

-- `token_from_str` is `Token::from_str` of the wallet library.
module _ (token_from_str : String → Option Token) where
  unfoldable pub validate_token : PaymentPolicy → String → Result PaymentError Token
  validate_token policy encoded =
      if ltb max_token_bytes (len encoded) || not (starts_with encoded "cashuB")
      then err invalid
      else parsed_token policy (token_from_str encoded)

-- `digest` is the hexadecimal SHA-256 of bytes.
unfoldable pub token_id : (Bytes → String) → Token → String
token_id digest token = digest (framed (sort token.secrets))

-- `MintWallet::open`, for a wallet that is not in memory.
unfoldable pub open_wallet : Answers → Collect (Unit {0})
open_wallet a w =
    unless w.is_open
      (do
        on_ledger (open_ledger a.ledger_opened)
        await always a.wallet_opened
        modify (λ v. record v { is_open = true; needs_recovery = true }))
      w

unfoldable pub finish_recovery : Report → Collect (Unit {0})
finish_recovery report w =
    if not (nat_eq report.failed 0) || not (nat_eq report.skipped 0)
    then (err unavailable, w)
    else (ok tt, record w { needs_recovery = false })

-- `MintWallet::recover`
unfoldable pub recover : Answer Report → Collect (Unit {0})
unfolding finish_recovery
recover outcome w =
    unless (not w.needs_recovery) (do report ← await classify_error outcome; finish_recovery report)
      w

abbrev pub ensure_valid : Bool → Collect (Unit {0})
ensure_valid true = pure tt
ensure_valid false = raise invalid

unfoldable pub token_value : Option ℕ → Collect ℕ
token_value none = raise invalid
token_value (some value) = pure value

-- The checks between recovery and the reservation; the value less the fees must reach the price.
unfoldable pub check_proofs : PaymentPolicy → Token → Answers → Collect (Unit {0})
unfolding token_value
check_proofs policy token a = do
  await classify_error a.dleq_verified
  await always a.keysets
  ensure_valid a.has_proofs
  fees ← await classify_error a.fees
  value ← token_value token.value
  ensure_valid (leb fees value && leb policy.price (value - fees))

-- `MintWallet::claim`
unfoldable pub claim_payment : Commit → String → Collect (Unit {0})
claim_payment c id = do granted ← on_ledger (claim c id); ensure_valid granted

abbrev pub memo_of : String → String
memo_of id = "geata-payment:" <> id

abbrev has_memo : Option String → String → Bool
has_memo none memo = false
has_memo (some m) memo = m == memo

-- A completed incoming transaction shows that an earlier attempt redeemed the token.
unfoldable pub is_redeemed : PaymentPolicy → String → List Transaction → Bool
is_redeemed policy id = any λ (tx : Transaction).
    has_memo tx.memo (memo_of id) && (tx.completed && leb policy.price tx.amount)

abbrev pub flag_recovery : Bool → Collect (Unit {0})
flag_recovery b = modify (λ w. record w { needs_recovery = b })

abbrev pub ensure_available : Bool → Collect (Unit {0})
ensure_available true = pure tt
ensure_available false = raise unavailable

-- What follows the redemption: the flag set before stays if too little came in.
unfoldable pub settle_received : PaymentPolicy → String → Answers → ℕ → Collect (Unit {0})
settle_received policy id a received = do
  ensure_available (leb policy.price received)
  flag_recovery false
  claim_payment a.claimed id

-- The end of `collect_inner`: the token is redeemed, and the request admitted.
unfoldable pub redeem : PaymentPolicy → String → Answers → Collect (Unit {0})
unfolding settle_received
redeem policy id a = do
  flag_recovery true
  received ← await classify_error a.received
  settle_received policy id a received

unfoldable pub resume : PaymentPolicy → String → Answers → Bool → Collect (Unit {0})
resume policy id a true = claim_payment a.claimed id
resume policy id a false = redeem policy id a

-- The `match` on the reservation.
unfoldable pub after_reservation :
    PaymentPolicy → String → Answers → Reservation → Collect (Unit {0})
after_reservation policy id a new = redeem policy id a
after_reservation policy id a pending = do
  transactions ← await classify_error a.transactions
  resume policy id a (is_redeemed policy id transactions)
after_reservation policy id a claimed = raise invalid
after_reservation policy id a mismatch = raise invalid

unfoldable pub reserve_payment : String → PaymentPolicy → String → Answers → Collect (Unit {0})
reserve_payment site policy id a = do
  reservation ← on_ledger (reserve a.reserved id site policy.price)
  after_reservation policy id a reservation

-- `collect_inner` from the wallet's lock on, for a valid token.
unfoldable pub collect_token :
    String → PaymentPolicy → Token → String → Answers → Collect (Unit {0})
unfolding reserve_payment
collect_token site policy token id a = do
  ensure_available (not a.busy)
  open_wallet a
  recover a.recovered
  check_proofs policy token a
  reserve_payment site policy id a

module _ (token_from_str : String → Option Token) (digest : Bytes → String) where
  -- `Payments::collect`: the time limit cancels the call where an answer is `cancelled` or unseen.
  unfoldable pub collect : String → PaymentPolicy → String → Answers → Collect (Unit {0})
  collect site policy encoded a = do
    token ← lift (validate_token token_from_str policy encoded)
    collect_token site policy token (token_id digest token) a

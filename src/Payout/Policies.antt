-- ===== src/Payout/Policies.antt =====
-- `PayoutPolicy` of crates/geata/src/payments/payout.rs: its record and its parser.
pub mod Valid
use geata.Common.{
  ℕ, ◌+◌, ◌*◌, ◌^◌, String, Bool, true, false, ◌&&◌, ◌||◌, not, Option, none, some, List, [], ◌∷◌,
  Result, ok, err, leb, nat_eq, if◌then◌else◌, is_some, ok_or, ensure, ◌>>=◌, ◌>>◌, u64_max,
  i64_max,
}
use geata.Common.Map.{Map, get}
use geata.Common.Digits.{all_digits, digits_value, parse_uint, up_to}
use geata.Common.Settings.{read_fields}
use geata.Common.Text.{Text, text, text_Key}
use geata.Url.{Parsers, parse_mint}
use geata.Payout.Request.{PaymentRequest, validate_request}

pub record PayoutPolicy : Type 0 where
  pub mint : Text
  pub request : PaymentRequest
  pub amount : ℕ
  pub max_fee : ℕ
  pub interval : Option ℕ
  pub threshold : Option ℕ

-- `parse::<i64>()`: whether there is a minus sign, and the magnitude.
abbrev negative : Text → Option (Bool × ℕ)
negative [] = none
negative (c ∷ s) = elim (up_to (2 ^ 63) (digits_value 0 (c ∷ s))) [
  | none ↦ none
  | some n ↦ some (true, n)
]

unfoldable pub parse_i64 : Text → Option (Bool × ℕ)
unfolding parse_uint digits_value
parse_i64 [] = none
parse_i64 (c ∷ s) =
    if nat_eq c b'-'
    then negative s
    else elim (parse_uint i64_max (c ∷ s)) [ none ↦ none | some n ↦ some (false, n) ]

-- `checked_mul`
abbrev scaled : ℕ → Option (Bool × ℕ) → Option (Bool × ℕ)
scaled m none = none
scaled m (some (minus, n)) =
    if leb (n * m) (if minus then 2 ^ 63 else i64_max) then some (minus, n * m) else none

abbrev in_range : Bool × ℕ → Bool
in_range (minus, n) = not minus && (leb 1 n && leb n 31_536_000)

-- The digits, and the seconds of the unit that stands behind them.
abbrev unit_of : ℕ → Option ℕ
unit_of c =
    if nat_eq c b's'
    then some 1
    else if nat_eq c b'm'
    then some 60
    else if nat_eq c b'h'
    then some 3600
    else if nat_eq c b'd'
    then some 86400
    else none

unfoldable pub split_last : ℕ → Text → Text × ℕ
split_last c [] = ([], c)
split_last c (d ∷ s) = let rest = split_last d s in (c ∷ rest.0, rest.1)

abbrev seconds_of : Text → Option ℕ → Result String ℕ
seconds_of digits none = err "interval requires s, m, h, or d suffix"
seconds_of digits (some m) = do
  seconds ← ok_or (scaled m (parse_i64 digits)) "invalid interval"
  ensure (in_range seconds) "interval must be between 1s and 365d"
  ok seconds.1

unfoldable pub parse_interval : Text → Result String ℕ
unfolding split_last parse_i64
parse_interval [] = err "interval requires s, m, h, or d suffix"
parse_interval (c ∷ s) = seconds_of (split_last c s).0 (unit_of (split_last c s).1)

abbrev names : List Text
names =
    text "mint"
    ∷ text "request"
    ∷ text "amount"
    ∷ text "max_fee"
    ∷ text "interval"
    ∷ text "threshold"
    ∷ []

-- `map(parse).transpose()`
abbrev optional : {A : Type 0} → (Text → Result String A) → Option Text → Result String (Option A)
optional parse none = ok none
optional parse (some value) = parse value >>= λ a. ok (some a)

abbrev parse_u64 : String → Text → Result String ℕ
parse_u64 message value = ok_or (parse_uint u64_max value) message

abbrev is_zero : Option ℕ → Bool
is_zero none = false
is_zero (some n) = nat_eq n 0

abbrev single_use : PaymentRequest → Bool
single_use request = elim request.single_use [ none ↦ false | some b ↦ b ]

module _ (parsers : Parsers) (from_str : Text → Option PaymentRequest) where
  abbrev pub with_request : Map Text Text → Text → PaymentRequest × ℕ → Result String PayoutPolicy
  with_request fields mint (request, amount) = do
    ensure (not (single_use request)) "automatic payout requires a reusable payment request"
    fee_text ← ok_or (get (text "max_fee") fields) "payout requires max_fee in sats"
    max_fee ← parse_u64 "invalid max_fee" fee_text
    ensure (leb (amount + max_fee) u64_max) "payout amount plus fee overflows"
    interval ← optional parse_interval (get (text "interval") fields)
    threshold ← optional (parse_u64 "invalid threshold") (get (text "threshold") fields)
    ensure (not (is_zero threshold)) "threshold must be positive"
    ensure (is_some interval || is_some threshold) "payout requires interval or threshold"
    ok (record {
      mint = mint;
      request = request;
      amount = amount;
      max_fee = max_fee;
      interval = interval;
      threshold = threshold;
    })

  abbrev parse_fields : Map Text Text → Result String PayoutPolicy
  parse_fields fields = do
    mint_text ← ok_or (get (text "mint") fields) "payout requires mint"
    mint ← parse_mint parsers mint_text
    wanted ← optional (parse_u64 "invalid payout amount") (get (text "amount") fields)
    encoded ← ok_or (get (text "request") fields) "payout requires request"
    paid ← ok_or (validate_request from_str parsers encoded mint wanted) "invalid payment request"
    with_request fields mint paid

  abbrev pub read : List Text → Result String (Map Text Text)
  read args =
      read_fields names "payout directives require a value" "unknown payout directive"
        "duplicate payout directive" args

  -- `PayoutPolicy::parse`
  unfoldable pub parse : List Text → Result String PayoutPolicy
  unfolding get read_fields parse_uint parse_mint validate_request parse_interval
  parse args = read args >>= parse_fields

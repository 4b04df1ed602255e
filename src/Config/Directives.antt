-- ===== src/Config/Directives.antt =====
-- The directives of a site: `parse_directives` of crates/geata/src/config.rs.
use geata.Common.{
  ℕ, ◌*◌, String, Bool, true, false, ◌&&◌, ◌||◌, not, Option, none, some, List, [], ◌∷◌, ok, leb,
  ltb, nat_eq, if◌then◌else◌, is_some, ◌>>=◌, ◌>>◌, any, length, get_elem?, unwrap_or, ◌==◌,
  u32_max, u64_max,
}
use geata.Common.Digits.{all_digits, parse_uint, keep_some}
use geata.Common.Text.{Text, text, text_Key, strip_suffix}
use geata.Config.Token.{Parsed, fail, Token, token_text}
use geata.Config.Handler.{Handler, proxy, at_line, parse_upstream, parse_response}
use geata.Lightning.Policies.{Protocols, parse_protocols}
use geata.Payments.Price.{PaymentPolicy}
use geata.Payments.Price
use geata.RateLimit.{Limit}
use geata.Url.{Parsers}

pub record RequestControls : Type 0 where
  pub max_body_bytes : Option ℕ
  pub request_timeout : Option ℕ
  pub ipv6_prefix : ℕ
  pub payment_limit : Limit

abbrev pub default_controls : RequestControls
default_controls = record {
  max_body_bytes = some (10 * 1024 * 1024);
  request_timeout = some 60;
  ipv6_prefix = 64;
  payment_limit = record { per_second = 2; burst = 8 };
}

-- `lightning_pay`: the price, the unit and the receiver, before the receiver is looked up.
pub record LightningPay : Type 0 where
  pub price : Text
  pub unit : Text
  pub receiver : Text
  pub line : ℕ

-- The variables of `parse_directives`.
pub record Directives : Type 0 where
  pub handler : Option Handler
  pub rate_limit : Option Limit
  pub payment : Option PaymentPolicy
  pub lightning : Option LightningPay
  pub lightning_headers : Option (List Text)
  pub lightning_origin : Option Text
  pub lightning_protocols : Option Protocols
  pub max_inflight : Option ℕ
  pub controls : RequestControls
  pub seen_controls : List Text

abbrev pub no_directives : Directives
no_directives = record {
  handler = none;
  rate_limit = none;
  payment = none;
  lightning = none;
  lightning_headers = none;
  lightning_origin = none;
  lightning_protocols = none;
  max_inflight = none;
  controls = default_controls;
  seen_controls = [];
}

-- `ensure`, at a line of the file.
abbrev pub guard : Bool → ℕ → String → Parsed (Unit {0})
guard true line message = ok tt
guard false line message = fail line message

abbrev pub or_fail : {A : Type 0} → Option A → ℕ → String → Parsed A
or_fail none line message = fail line message
or_fail (some a) line message = ok a

-- The texts among the arguments behind the directive's name.
unfoldable pub texts : List Token → List Text
texts [] = []
texts (t ∷ ts) = let rest = texts ts in elim (token_text t) [ none ↦ rest | some s ↦ s ∷ rest ]

abbrev text_of : Option Token → Option Text
text_of none = none
text_of (some t) = token_text t

abbrev pub arg? : List Token → ℕ → Option Text
arg? args i = text_of (get_elem? args i)

-- `args[i + 1].text().unwrap_or_default()`
abbrev pub arg : List Token → ℕ → Text
arg args i = unwrap_or (arg? args i) []

abbrev pub is_text : String → Option Text → Bool
is_text s none = false
is_text s (some t) = t == text s

-- Below, `args` are the arguments behind the name of the directive.
unfoldable pub lightning_pay : ℕ → List Token → Directives → Parsed Directives
lightning_pay line args s = do
  guard (not (is_some s.lightning)) line "duplicate lightning_pay directive"
  guard (nat_eq (length args) 3) line "expected lightning_pay <price> sat <receiver name>"
  ok (record s {
    lightning =
        some (record { price = arg args 0; unit = arg args 1; receiver = arg args 2; line = line });
  })

unfoldable pub lightning_protocols : ℕ → List Token → Directives → Parsed Directives
unfolding texts parse_protocols
lightning_protocols line args s = do
  guard (not (is_some s.lightning_protocols)) line "duplicate lightning_protocols directive"
  protocols ← at_line line (parse_protocols (texts args))
  ok (record s { lightning_protocols = some protocols })

unfoldable pub lightning_headers : ℕ → List Token → Directives → Parsed Directives
unfolding texts
lightning_headers line args s = do
  guard (not (is_some s.lightning_headers)) line "duplicate lightning_headers directive"
  guard (leb 1 (length args)) line "expected lightning_headers <names...> or lightning_headers none"
  guard (nat_eq (length args) 1 || not (any (λ t. is_text "none" (token_text t)) args)) line
      "lightning_headers none cannot be combined with header names"
  ok (record s {
    lightning_headers =
        some (if nat_eq (length args) 1 && is_text "none" (arg? args 0) then [] else texts args);
  })

unfoldable pub lightning_origin : ℕ → List Token → Directives → Parsed Directives
lightning_origin line args s = do
  guard (not (is_some s.lightning_origin)) line "duplicate lightning_origin directive"
  guard (nat_eq (length args) 1) line "expected lightning_origin <public HTTP(S) origin>"
  ok (record s { lightning_origin = some (arg args 0) })

-- `max_inflight`: off is 0.
abbrev inflight : Option Text → Option ℕ
inflight none = none
inflight (some s) =
    keep_some (λ n. leb n 1_000_000)
      (if s == text "off" then some 0 else keep_some (λ n. ltb 0 n) (parse_uint u32_max s))

unfoldable pub max_inflight : ℕ → List Token → Directives → Parsed Directives
unfolding parse_uint
max_inflight line args s = do
  guard (not (is_some s.max_inflight)) line "duplicate max_inflight directive"
  most ← or_fail (inflight (arg? args 0)) line "max_inflight must be off or between 1 and 1000000"
  ok (record s { max_inflight = some most })

-- `seen_controls.insert(name)`, with an error where it was there.
unfoldable pub see : ℕ → String → String → Directives → Parsed Directives
see line name message s = do
  guard (not (any (λ n. n == text name) s.seen_controls)) line message
  ok (record s { seen_controls = text name ∷ s.seen_controls })

unfoldable pub ipv6_prefix : ℕ → List Token → Directives → Parsed Directives
unfolding see parse_uint
ipv6_prefix line args s₀ = do
  s ← see line "ipv6_prefix" "duplicate request control" s₀
  value ← or_fail (arg? args 0) line "missing request control value"
  prefix ←
      or_fail (keep_some (λ n. leb n 128) (parse_uint 255 value)) line
        "ipv6_prefix must be 0 through 128"
  ok (record s { controls = record s.controls { ipv6_prefix = prefix } })

-- A bound of a request: none for off.
unfoldable pub control_value : ℕ → Text → Parsed (Option ℕ)
unfolding parse_uint
control_value line value = if value == text "off" then ok none else do
  n ←
      or_fail (keep_some (λ n. ltb 0 n && leb n u32_max) (parse_uint u64_max value)) line
        "request control must be off or a positive integer up to 4294967295"
  ok (some n)

unfoldable pub max_body_bytes : ℕ → List Token → Directives → Parsed Directives
unfolding see control_value
max_body_bytes line args s₀ = do
  s ← see line "max_body_bytes" "duplicate request control" s₀
  value ← or_fail (arg? args 0) line "missing request control value"
  bound ← control_value line value
  ok (record s { controls = record s.controls { max_body_bytes = bound } })

unfoldable pub request_timeout : ℕ → List Token → Directives → Parsed Directives
unfolding see control_value
request_timeout line args s₀ = do
  s ← see line "request_timeout" "duplicate request control" s₀
  value ← or_fail (arg? args 0) line "missing request control value"
  bound ← control_value line value
  ok (record s { controls = record s.controls { request_timeout = bound } })

abbrev pub positive : Text → Option ℕ
positive s = keep_some (λ n. ltb 0 n && all_digits s) (parse_uint u32_max s)

abbrev pub and_then : {A : Type 0} → (Text → Option A) → Option Text → Option A
and_then f none = none
and_then f (some s) = f s

unfoldable pub parse_limit : ℕ → List Token → Parsed Limit
unfolding parse_uint all_digits strip_suffix
parse_limit line args = do
  guard (nat_eq (length args) 3 && is_text "burst" (arg? args 1)) line
      "expected rate limit <positive integer>/s burst <positive integer>"
  per_second ←
      or_fail (and_then positive (and_then (strip_suffix (text "/s")) (arg? args 0))) line
        "expected rate limit <positive integer>/s burst <positive integer>"
  burst ←
      or_fail (and_then positive (arg? args 2)) line
        "expected rate limit <positive integer>/s burst <positive integer>"
  ok (record { per_second = per_second; burst = burst })

unfoldable pub rate_limit : ℕ → List Token → Directives → Parsed Directives
unfolding see parse_limit
rate_limit line args s₀ = do
  s ← see line "rate_limit" "duplicate rate_limit directive" s₀
  limit ← parse_limit line args
  ok (record s { rate_limit = some limit })

unfoldable pub payment_verify_limit : ℕ → List Token → Directives → Parsed Directives
unfolding see parse_limit
payment_verify_limit line args s₀ = do
  s ← see line "payment_verify_limit" "duplicate payment_verify_limit directive" s₀
  limit ← parse_limit line args
  ok (record s { controls = record s.controls { payment_limit = limit } })

unfoldable pub respond_with : ℕ → List Token → Directives → Parsed Directives
unfolding parse_response
respond_with line args s = do
  guard (not (is_some s.handler)) line
      "expected exactly one reverse_proxy or respond directive per site"
  handler ← parse_response line args
  ok (record s { handler = some handler })

module _ (parsers : Parsers) where
  unfoldable pub pay : ℕ → List Token → Directives → Parsed Directives
  unfolding Price.parse
  pay line args s = do
    guard (not (is_some s.payment)) line "duplicate pay directive"
    guard (nat_eq (length args) 3) line "expected pay <price> sat <mint URL>"
    payment ← at_line line (Price.parse parsers (arg args 0) (arg args 1) (arg args 2))
    ok (record s { payment = some payment })

  unfoldable pub reverse_proxy : ℕ → List Token → Directives → Parsed Directives
  unfolding parse_upstream
  reverse_proxy line args s = do
    guard (not (is_some s.handler)) line
        "expected exactly one reverse_proxy or respond directive per site"
    guard (nat_eq (length args) 1) line "expected reverse_proxy <backend>"
    upstream ← at_line line (parse_upstream parsers (arg args 0))
    ok (record s { handler = some (proxy upstream) })

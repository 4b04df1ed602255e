-- ===== src/Config/Block.antt =====
-- A site's block: the loop and the end of `parse_directives` (crates/geata/src/config.rs).
use geata.Common.{
  take, drop, ℕ, zero, suc, Bool, ◌||◌, not, Option, none, some, List, [], ◌∷◌, ◌++◌, ok, err,
  length, if◌then◌else◌, is_some, ◌>>=◌, ◌>>◌, unwrap_or,
}
use geata.Common.Map.{Map, get}
use geata.Common.Text.{Text, text, text_Key}
use geata.Config.Token.{out_of_fuel, Parsed, fail, Token}
use geata.Config.Handler.{Handler, at_line}
use geata.Config.Name.{Directive, directive_of, argument_count}
use geata.Config.Directives.{
  LightningPay, Directives, no_directives, guard, or_fail, lightning_pay, lightning_protocols,
  lightning_headers, lightning_origin, max_inflight, ipv6_prefix, max_body_bytes, request_timeout,
  rate_limit, payment_verify_limit, respond_with, pay, reverse_proxy,
}
use geata.Lightning.Policies.{ReceiverConfig, Protocols, default_protocols, Policy}
use geata.Lightning.Policies
use geata.Url.{Parsers}

module _ (parsers : Parsers) where
  -- One turn of the loop: the directive at a line, with its arguments.
  unfoldable pub directive : Option Directive → ℕ → List Token → Directives → Parsed Directives
  directive none line args s = fail line "unknown directive"
  directive (some Directive.lightning_pay) line args s = lightning_pay line args s
  directive (some Directive.lightning_protocols) line args s = lightning_protocols line args s
  directive (some Directive.lightning_headers) line args s = lightning_headers line args s
  directive (some Directive.lightning_origin) line args s = lightning_origin line args s
  directive (some Directive.pay) line args s = pay parsers line args s
  directive (some Directive.max_inflight) line args s = max_inflight line args s
  directive (some Directive.max_body_bytes) line args s = max_body_bytes line args s
  directive (some Directive.request_timeout) line args s = request_timeout line args s
  directive (some Directive.ipv6_prefix) line args s = ipv6_prefix line args s
  directive (some Directive.rate_limit) line args s = rate_limit line args s
  directive (some Directive.payment_verify_limit) line args s = payment_verify_limit line args s
  directive (some Directive.reverse_proxy) line args s = reverse_proxy parsers line args s
  directive (some Directive.respond) line args s = respond_with line args s

  unfoldable pub directives_from : ℕ → List Token → Directives → Parsed Directives
  unfolding directive argument_count
  directives_from fuel [] s = ok s
  directives_from zero (t ∷ ts) s = err out_of_fuel
  directives_from (suc fuel) (t ∷ ts) s =
      let count = argument_count (directive_of t) ts in
      directive (directive_of t) t.line (take count ts) s >>= directives_from fuel (drop count ts)

  -- The origin of a site, where the file names none.
  unfoldable pub site_origin : Text → Bool → Text
  site_origin domain https = (if https then text "https://" else text "http://") ++ domain

  abbrev pub policy_of :
      ℕ → Map Text ReceiverConfig → Text → Bool → LightningPay → Directives → Parsed Policy
  policy_of line receivers domain https wanted s = do
    receiver ← or_fail (get wanted.receiver receivers) wanted.line "unknown Lightning receiver"
    headers ←
        or_fail s.lightning_headers wanted.line
          "lightning_pay requires lightning_headers; use none only when no headers affect the request"
    at_line wanted.line (
        Policies.new parsers wanted.price wanted.unit receiver
          (unwrap_or s.lightning_origin (site_origin domain https)) headers
          (unwrap_or s.lightning_protocols default_protocols))

  -- The Lightning policy of the directives of a block at a line.
  unfoldable pub lightning_policy :
      ℕ
      → Map Text ReceiverConfig
      → Text
      → Bool
      → Option LightningPay
      → Directives
      → Parsed (Option Policy)
  unfolding get site_origin Policies.new
  lightning_policy line receivers domain https (some wanted) s =
      policy_of line receivers domain https wanted s >>= λ policy. ok (some policy)
  lightning_policy line receivers domain https none s = do
    guard
        (not (
          is_some s.lightning_headers
          || (is_some s.lightning_origin || is_some s.lightning_protocols)))
        line "lightning_headers, lightning_origin, and lightning_protocols require lightning_pay"
    ok none

  abbrev pub finish :
      ℕ
      → Map Text ReceiverConfig
      → Text
      → Bool
      → Directives
      → Parsed (Handler × (Option Policy × Directives))
  finish line receivers domain https s = do
    handler ←
        or_fail s.handler line "expected exactly one reverse_proxy or respond directive per site"
    lightning ← lightning_policy line receivers domain https s.lightning s
    ok (handler, (lightning, s))

  -- `parse_directives`: the handler, the Lightning policy, and the variables that hold the rest.
  unfoldable pub parse_directives :
      List Token
      → ℕ
      → Map Text ReceiverConfig
      → Text
      → Bool
      → Parsed (Handler × (Option Policy × Directives))
  unfolding directives_from lightning_policy
  parse_directives tokens line receivers domain https =
      directives_from (length tokens) tokens no_directives >>= finish line receivers domain https

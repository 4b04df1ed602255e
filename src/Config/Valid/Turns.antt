-- ===== src/Config/Valid/Turns.antt =====
-- Each turn of the loop over directives keeps the settings valid.
use geata.Common.{ℕ, Option, none, some, List, arith, String}
use geata.Common.Post.{ok-Post, bind-Post}
use geata.Config.Token.{Token}
use geata.Config.Name.{Directive}
use geata.Config.Directives.{
  Directives, texts, lightning_pay, lightning_protocols, lightning_headers, lightning_origin,
  max_inflight, see, ipv6_prefix, control_value, max_body_bytes, request_timeout, parse_limit,
  rate_limit, payment_verify_limit, respond_with, pay, reverse_proxy, arg, arg?,
}
use geata.Config.Block.{directive}
use geata.Config.Outcome.{Holds, fail-Holds, or_fail-Holds}
use geata.Config.Valid.{IsDirectives}
use geata.Config.Valid.Values.{
  parse_response-IsHandler, parse_upstream-port, parse-IsPrice, parse_protocols-IsProtocols,
  parse_limit-IsLimit, control_value-IsPositive,
}
use geata.Url.{Parsers}

lightning_pay-IsDirectives :
    (line : ℕ) (args : List Token) (s : Directives)
    → IsDirectives s
    → Holds IsDirectives (lightning_pay line args s)
unfolding lightning_pay
lightning_pay-IsDirectives line args s h = record { holds = ground arith }

lightning_headers-IsDirectives :
    (line : ℕ) (args : List Token) (s : Directives)
    → IsDirectives s
    → Holds IsDirectives (lightning_headers line args s)
unfolding lightning_headers
lightning_headers-IsDirectives line args s h = record { holds = ground arith }

lightning_origin-IsDirectives :
    (line : ℕ) (args : List Token) (s : Directives)
    → IsDirectives s
    → Holds IsDirectives (lightning_origin line args s)
unfolding lightning_origin
lightning_origin-IsDirectives line args s h = record { holds = ground arith }

lightning_protocols-IsDirectives :
    (line : ℕ) (args : List Token) (s : Directives)
    → IsDirectives s
    → Holds IsDirectives (lightning_protocols line args s)
unfolding lightning_protocols
lightning_protocols-IsDirectives line args s h =
    let read = parse_protocols-IsProtocols (texts args) in
    record { holds = ground (arith, read.holds) }

max_inflight-IsDirectives :
    (line : ℕ) (args : List Token) (s : Directives)
    → IsDirectives s
    → Holds IsDirectives (max_inflight line args s)
unfolding max_inflight
max_inflight-IsDirectives line args s h = record { holds = ground arith }

see-IsDirectives :
    (line : ℕ) (name message : String) (s : Directives)
    → IsDirectives s
    → Holds IsDirectives (see line name message s)
unfolding see
see-IsDirectives line name message s h = record { holds = ground arith }

ipv6_prefix-IsDirectives :
    (line : ℕ) (args : List Token) (s : Directives)
    → IsDirectives s
    → Holds IsDirectives (ipv6_prefix line args s)
unfolding ipv6_prefix
ipv6_prefix-IsDirectives line args s₀ h =
    bind-Post (see line "ipv6_prefix" "duplicate request control" s₀) _
      (see-IsDirectives line "ipv6_prefix" "duplicate request control" s₀ h)
      λ s h'. record { holds = ground arith }

max_body_bytes-IsDirectives :
    (line : ℕ) (args : List Token) (s : Directives)
    → IsDirectives s
    → Holds IsDirectives (max_body_bytes line args s)
unfolding max_body_bytes
max_body_bytes-IsDirectives line args s₀ h =
    bind-Post (see line "max_body_bytes" "duplicate request control" s₀) _
      (see-IsDirectives line "max_body_bytes" "duplicate request control" s₀ h)
      λ s h'.
        bind-Post _ _ (or_fail-Holds (arg? args 0) line "missing request control value") λ value _.
          bind-Post (control_value line value) _ (control_value-IsPositive line value)
            λ bound h_b. ok-Post (ground arith)

request_timeout-IsDirectives :
    (line : ℕ) (args : List Token) (s : Directives)
    → IsDirectives s
    → Holds IsDirectives (request_timeout line args s)
unfolding request_timeout
request_timeout-IsDirectives line args s₀ h =
    bind-Post (see line "request_timeout" "duplicate request control" s₀) _
      (see-IsDirectives line "request_timeout" "duplicate request control" s₀ h)
      λ s h'.
        bind-Post _ _ (or_fail-Holds (arg? args 0) line "missing request control value") λ value _.
          bind-Post (control_value line value) _ (control_value-IsPositive line value)
            λ bound h_b. ok-Post (ground arith)

rate_limit-IsDirectives :
    (line : ℕ) (args : List Token) (s : Directives)
    → IsDirectives s
    → Holds IsDirectives (rate_limit line args s)
unfolding rate_limit
rate_limit-IsDirectives line args s₀ h =
    bind-Post (see line "rate_limit" "duplicate rate_limit directive" s₀) _
      (see-IsDirectives line "rate_limit" "duplicate rate_limit directive" s₀ h)
      λ s h'.
        bind-Post (parse_limit line args) _ (parse_limit-IsLimit line args)
          λ limit h_l. ok-Post (ground arith)

payment_verify_limit-IsDirectives :
    (line : ℕ) (args : List Token) (s : Directives)
    → IsDirectives s
    → Holds IsDirectives (payment_verify_limit line args s)
unfolding payment_verify_limit
payment_verify_limit-IsDirectives line args s₀ h =
    bind-Post (see line "payment_verify_limit" "duplicate payment_verify_limit directive" s₀) _
      (see-IsDirectives line "payment_verify_limit" "duplicate payment_verify_limit directive" s₀ h)
      λ s h'.
        bind-Post (parse_limit line args) _ (parse_limit-IsLimit line args)
          λ limit h_l. ok-Post (ground arith)

respond_with-IsDirectives :
    (line : ℕ) (args : List Token) (s : Directives)
    → IsDirectives s
    → Holds IsDirectives (respond_with line args s)
unfolding respond_with
respond_with-IsDirectives line args s h =
    let read = parse_response-IsHandler line args in record { holds = ground (arith, read.holds) }

module _ (parsers : Parsers) where
  pay-IsDirectives :
      (line : ℕ) (args : List Token) (s : Directives)
      → IsDirectives s
      → Holds IsDirectives (pay parsers line args s)
  unfolding pay
  pay-IsDirectives line args s h =
      let read = parse-IsPrice parsers (arg args 0) (arg args 1) (arg args 2) in
      record { holds = ground (arith, read.holds) }

  reverse_proxy-IsDirectives :
      (line : ℕ) (args : List Token) (s : Directives)
      → IsDirectives s
      → Holds IsDirectives (reverse_proxy parsers line args s)
  unfolding reverse_proxy
  reverse_proxy-IsDirectives line args s h =
      let read = parse_upstream-port parsers (arg args 0) in
      record { holds = ground (arith, read.holds) }

  -- Every turn of the loop keeps the settings valid.
  pub directive-IsDirectives :
      (d : Option Directive) (line : ℕ) (args : List Token) (s : Directives)
      → IsDirectives s
      → Holds IsDirectives (directive parsers d line args s)
  unfolding directive
  directive-IsDirectives none line args s h = fail-Holds line "unknown directive"
  directive-IsDirectives (some Directive.lightning_pay) line args s h =
      lightning_pay-IsDirectives line args s h
  directive-IsDirectives (some Directive.lightning_protocols) line args s h =
      lightning_protocols-IsDirectives line args s h
  directive-IsDirectives (some Directive.lightning_headers) line args s h =
      lightning_headers-IsDirectives line args s h
  directive-IsDirectives (some Directive.lightning_origin) line args s h =
      lightning_origin-IsDirectives line args s h
  directive-IsDirectives (some Directive.pay) line args s h = pay-IsDirectives line args s h
  directive-IsDirectives (some Directive.max_inflight) line args s h =
      max_inflight-IsDirectives line args s h
  directive-IsDirectives (some Directive.max_body_bytes) line args s h =
      max_body_bytes-IsDirectives line args s h
  directive-IsDirectives (some Directive.request_timeout) line args s h =
      request_timeout-IsDirectives line args s h
  directive-IsDirectives (some Directive.ipv6_prefix) line args s h =
      ipv6_prefix-IsDirectives line args s h
  directive-IsDirectives (some Directive.rate_limit) line args s h =
      rate_limit-IsDirectives line args s h
  directive-IsDirectives (some Directive.payment_verify_limit) line args s h =
      payment_verify_limit-IsDirectives line args s h
  directive-IsDirectives (some Directive.reverse_proxy) line args s h =
      reverse_proxy-IsDirectives line args s h
  directive-IsDirectives (some Directive.respond) line args s h =
      respond_with-IsDirectives line args s h

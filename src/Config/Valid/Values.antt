-- ===== src/Config/Valid/Values.antt =====
-- The values of directives: responses, backends, limits and protocols.
use geata.Common.{
  ℕ, ◌≤◌, refl, false, ◌&&◌, String, Option, none, some, List, [], ◌∷◌, ok, arith, u32_max, leb,
  nat_eq, ◌>>=◌, Bool-cases, inl, inr, length,
}
use geata.Common.Digits.{parse_uint, parse_uint-AtMost, keep_some}
use geata.Common.Post.{Post, Any, ok-Post, err-Post, bind-Post, if-Post}
use geata.Common.Text.{Text, text, text_Key, byte_length, strip_suffix}
use geata.Config.Token.{Token, token_text}
use geata.Config.Handler.{
  Upstream, status_of, is_bodyless, response_of, is_status, parse_response, upstream_of,
  parse_upstream, text_or_empty,
}
use geata.Config.Directives.{
  parse_limit, control_value, positive, and_then, arg?, is_text, or_fail, guard,
}
use geata.Config.Outcome.{Holds, fail-Holds, guard-Holds}
use geata.Config.Valid.{IsOptional, IsPositive, IsLimit, IsHandler, IsPrice, IsProtocols}
use geata.Lightning.Policies.{Protocols, enable, enable_all, parse_protocols}
use geata.Payments.Price.{PaymentPolicy}
use geata.Payments.Price
use geata.Url.{Url, Parsers}

response_of-IsHandler :
    (line : ℕ) (body : Text) (o : Option ℕ)
    → IsOptional (λ n. (200 ≤ n) × (n ≤ 599)) o
    → Holds IsHandler (response_of line body o)
response_of-IsHandler line body none h = fail-Holds line _
response_of-IsHandler line [] (some status) h = elim (Bool-cases (is_bodyless status)) [
  | inl e ↦ rw e (ok-Post (h.0, (h.1, inr refl)))
  | inr e ↦ rw e (ok-Post (h.0, (h.1, inr refl)))
]
response_of-IsHandler line (c ∷ s) (some status) h = elim (Bool-cases (is_bodyless status)) [
  | inl e ↦ rw e (fail-Holds line _)
  | inr e ↦ rw e (ok-Post (h.0, (h.1, inl e)))
]

status_of-range : (o : Option Text) → IsOptional (λ n. (200 ≤ n) × (n ≤ 599)) (status_of o)
status_of-range none = (omega arith, omega arith)
status_of-range (some s) = go (parse_uint 65535 s)
  where
    go :
        (o : Option ℕ)
        → IsOptional
            (λ n. (200 ≤ n) × (n ≤ 599))
            (keep_some (λ code. nat_eq (byte_length s) 3 && (leb 200 code && leb code 599)) o)
    go none = tt
    go (some n) = ground arith

pub parse_response-IsHandler :
    (line : ℕ) (args : List Token) → Holds IsHandler (parse_response line args)
unfolding parse_response
parse_response-IsHandler line [] = fail-Holds line _
parse_response-IsHandler line (t ∷ []) =
    if-Post (is_status t) _ _
      (λ _.
        response_of-IsHandler line [] (status_of (token_text t)) (status_of-range (token_text t)))
      (λ _.
        response_of-IsHandler line (text_or_empty (token_text t)) (some 200)
          (omega arith, omega arith))
parse_response-IsHandler line (t ∷ u ∷ []) =
    response_of-IsHandler line (text_or_empty (token_text t)) (status_of (token_text u))
      (status_of-range (token_text u))
parse_response-IsHandler line (t ∷ u ∷ v ∷ args) = fail-Holds line _

module _ (parsers : Parsers) where
  upstream_of-port :
      (o : Option Url) → Post Any (λ (u : Upstream). 1 ≤ u.port) (upstream_of parsers o)
  upstream_of-port none = err-Post tt
  upstream_of-port (some url) = record { holds = ground arith }

  pub parse_upstream-port :
      (value : Text) → Post Any (λ (u : Upstream). 1 ≤ u.port) (parse_upstream parsers value)
  unfolding parse_upstream
  parse_upstream-port value = upstream_of-port _

  pub parse-IsPrice :
      (price unit mint : Text) → Post Any IsPrice (Price.parse parsers price unit mint)
  unfolding Price.parse
  parse-IsPrice price unit mint = record { holds = ground (arith, parse_uint-AtMost u32_max price) }

abbrev off : Protocols
off = record { x402 = false; l402 = false }

-- A switched-on protocol stays on.
enable-IsProtocols : (name : Text) (p : Protocols) → Post Any IsProtocols (enable name p)
enable-IsProtocols name p = record { holds = ground arith }

enable_all-IsProtocols :
    (names : List Text) (p : Protocols) → IsProtocols p → Post Any IsProtocols (enable_all p names)
unfolding enable_all
enable_all-IsProtocols [] p h = ok-Post h
enable_all-IsProtocols (name ∷ names) p h =
    bind-Post (enable name p) _ (enable-IsProtocols name p) (enable_all-IsProtocols names)

pub parse_protocols-IsProtocols : (names : List Text) → Post Any IsProtocols (parse_protocols names)
unfolding parse_protocols enable_all
parse_protocols-IsProtocols [] = err-Post tt
parse_protocols-IsProtocols (name ∷ names) =
    bind-Post (enable name off) _ (enable-IsProtocols name off) (enable_all-IsProtocols names)

positive-IsPositive : (s : Text) → IsOptional IsPositive (positive s)
positive-IsPositive s = ground (arith, parse_uint-AtMost u32_max s)

and_then-IsPositive : (o : Option Text) → IsOptional IsPositive (and_then positive o)
and_then-IsPositive none = tt
and_then-IsPositive (some s) = positive-IsPositive s

pub parse_limit-IsLimit : (line : ℕ) (args : List Token) → Holds IsLimit (parse_limit line args)
unfolding parse_limit
parse_limit-IsLimit line args =
    go (and_then positive per_second) (and_then positive (arg? args 2))
      (and_then-IsPositive per_second) (and_then-IsPositive (arg? args 2))
  where
    per_second : Option Text
    per_second = and_then (strip_suffix (text "/s")) (arg? args 0)

    syntax : String
    syntax = "expected rate limit <positive integer>/s burst <positive integer>"

    go :
        (a b : Option ℕ)
        → IsOptional IsPositive a
        → IsOptional IsPositive b
        → Holds IsLimit (
            guard (nat_eq (length args) 3 && is_text "burst" (arg? args 1)) line syntax >>= λ _.
            or_fail a line syntax >>= λ m.
            or_fail b line syntax >>= λ n. ok (record { per_second = m; burst = n }))
    go a b h k =
        guard-Holds (nat_eq (length args) 3 && is_text "burst" (arg? args 1)) line syntax _
          λ _. record { holds = ground arith }

pub control_value-IsPositive :
    (line : ℕ) (value : Text) → Holds (IsOptional IsPositive) (control_value line value)
unfolding control_value
control_value-IsPositive line value = record { holds = ground arith }

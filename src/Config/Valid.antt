-- ===== src/Config/Valid.antt =====
-- What holds of a site's settings once they are read (crates/geata/src/config.rs).
pub mod Values
pub mod Turns
pub mod Blocks
pub mod Sites
pub mod Whole
use geata.Common.{ℕ, ◌≤◌, ◌≡◌, Bool, true, false, ◌⊎◌, ◌||◌, Option, none, some, [], ok, u32_max}
use geata.Common.Text.{Text}
use geata.Config.Handler.{Upstream, Handler, proxy, respond, is_bodyless}
use geata.Config.Directives.{RequestControls, Directives}
use geata.Lightning.Policies.{Protocols, Policy, validate_receiver, validate_binding}
use geata.Payments.Price.{PaymentPolicy}
use geata.RateLimit.{Limit}
use geata.Url.{Parsers}

abbrev pub IsOptional : {A : Type 0} → (A → Type 0) → Option A → Type 0
IsOptional P none = Unit
IsOptional P (some a) = P a

abbrev pub IsPositive : ℕ → Type 0
IsPositive n = (1 ≤ n) × (n ≤ u32_max)

abbrev pub IsLimit : Limit → Type 0
IsLimit limit = IsPositive limit.per_second × IsPositive limit.burst

-- A backend has a port; a response has a final status, and a body only where the status allows one.
abbrev pub IsHandler : Handler → Type 0
IsHandler (proxy upstream) = 1 ≤ upstream.port
IsHandler (respond body status) =
    (200 ≤ status) × ((status ≤ 599) × ((is_bodyless status ≡ false) ⊎ (body ≡ [])))

abbrev pub IsPrice : PaymentPolicy → Type 0
IsPrice payment = IsPositive payment.price

abbrev pub IsProtocols : Protocols → Type 0
IsProtocols protocols = (protocols.x402 || protocols.l402) ≡ true

abbrev pub IsControls : RequestControls → Type 0
IsControls controls =
    IsOptional IsPositive controls.max_body_bytes
    × (IsOptional IsPositive controls.request_timeout
        × ((controls.ipv6_prefix ≤ 128) × IsLimit controls.payment_limit))

abbrev pub IsInflight : ℕ → Type 0
IsInflight n = n ≤ 1_000_000

abbrev pub IsDirectives : Directives → Type 0
IsDirectives s =
    IsOptional IsHandler s.handler
    × (IsOptional IsLimit s.rate_limit
        × (IsOptional IsPrice s.payment
            × (IsOptional IsProtocols s.lightning_protocols
                × (IsOptional IsInflight s.max_inflight × IsControls s.controls))))

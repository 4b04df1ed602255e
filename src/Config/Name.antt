-- ===== src/Config/Name.antt =====
-- The names of the directives of a site (crates/geata/src/config.rs).
use geata.Common.{
  ℕ, suc, Bool, false, ◌||◌, not, Option, none, some, List, [], ◌∷◌, is_some, if◌then◌else◌,
  get_elem?,
}
use geata.Common.Map.{Map, get}
use geata.Common.Text.{Text, text, text_Key}
use geata.Config.Token.{Token, token_text}

pub data Directive : Type 0 where
  reverse_proxy respond rate_limit pay lightning_pay lightning_headers lightning_protocols :
      Directive
  lightning_origin max_body_bytes request_timeout ipv6_prefix payment_verify_limit max_inflight :
      Directive

abbrev directive_names : Map Text Directive
directive_names =
    (text "reverse_proxy", reverse_proxy)
    ∷ (text "respond", respond)
    ∷ (text "rate_limit", rate_limit)
    ∷ (text "pay", pay)
    ∷ (text "lightning_pay", lightning_pay)
    ∷ (text "lightning_headers", lightning_headers)
    ∷ (text "lightning_protocols", lightning_protocols)
    ∷ (text "lightning_origin", lightning_origin)
    ∷ (text "max_body_bytes", max_body_bytes)
    ∷ (text "request_timeout", request_timeout)
    ∷ (text "ipv6_prefix", ipv6_prefix)
    ∷ (text "payment_verify_limit", payment_verify_limit)
    ∷ (text "max_inflight", max_inflight)
    ∷ []

abbrev named : Option Text → Option Directive
named none = none
named (some name) = get name directive_names

-- The directive that a token names, quoted or not.
unfoldable pub directive_of : Token → Option Directive
unfolding get
directive_of t = named (token_text t)

-- `site_directive`
unfoldable pub site_directive : Token → Bool
unfolding directive_of
site_directive t = is_some (directive_of t)

-- What a directive of many arguments, or a status, cannot be taken from: a bare directive.
abbrev is_argument : Token → Bool
is_argument t = t.quoted || not (site_directive t)

-- How many arguments stand before the next directive.
unfoldable pub arguments : List Token → ℕ
unfolding site_directive
arguments [] = 0
arguments (t ∷ ts) = let rest = arguments ts in if is_argument t then suc rest else 0

abbrev has_status : Option Token → Bool
has_status none = false
has_status (some t) = is_argument t

-- How many tokens behind a directive belong to it; fewer are taken where the block ends.
unfoldable pub argument_count : Option Directive → List Token → ℕ
unfolding arguments site_directive
argument_count none ts = 0
argument_count (some reverse_proxy) ts = 1
argument_count (some respond) ts = if has_status (get_elem? ts 1) then 2 else 1
argument_count (some rate_limit) ts = 3
argument_count (some payment_verify_limit) ts = 3
argument_count (some pay) ts = 3
argument_count (some lightning_pay) ts = 3
argument_count (some lightning_headers) ts = arguments ts
argument_count (some lightning_protocols) ts = arguments ts
argument_count (some lightning_origin) ts = 1
argument_count (some max_body_bytes) ts = 1
argument_count (some request_timeout) ts = 1
argument_count (some ipv6_prefix) ts = 1
argument_count (some max_inflight) ts = 1

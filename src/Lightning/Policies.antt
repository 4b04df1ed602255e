-- ===== src/Lightning/Policies.antt =====
-- Receivers and policies of Lightning payments (crates/geata/src/payments/lightning/mod.rs).
pub mod Valid
use geata.Common.{
  ℕ, ◌*◌, Bool, true, false, ◌&&◌, ◌||◌, not, Option, none, some, List, [], ◌∷◌, Result, ok, err,
  ◌==◌, if◌then◌else◌, String, ltb, leb, nat_eq, length, ensure, ok_or, ◌>>=◌, ◌>>◌, any, all,
  is_some, u32_max, u64_max,
}
use geata.Common.Map.{Map, get}
use geata.Common.Digits.{is_digit, all_digits, parse_uint}
use geata.Common.Settings.{read_fields}
use geata.Common.Text.{Text, text, text_Key, text_lt, to_ascii_lowercase}
use geata.Url.{Url, Parsers, parse_mint, is_plain}

abbrev pub mainnet : Text
mainnet = text "lnbtc:000000000019d6689c085ae165831e93"

abbrev pub testnet : Text
testnet = text "lnbtc:000000000933ea01ad0ee984209779ba"

pub record LdkReceiverConfig : Type 0 where
  pub endpoint : Text
  pub macaroon_file : Text
  pub tls_cert_file : Text
  pub pay_to : Text
  pub network : Text
  pub expiry_seconds : ℕ

pub data ReceiverConfig : Type 0 where
  ldk : LdkReceiverConfig → ReceiverConfig
  cashu : Text → Text → ReceiverConfig

unfoldable pub receiver_network : ReceiverConfig → Text
receiver_network (ldk node) = node.network
receiver_network (cashu mint network) = network

unfoldable pub ldk_of : ReceiverConfig → Option LdkReceiverConfig
ldk_of (ldk node) = some node
ldk_of (cashu _ _) = none

unfoldable pub mint_of : ReceiverConfig → Option Text
mint_of (ldk _) = none
mint_of (cashu mint _) = some mint

pub record Protocols : Type 0 where
  pub x402 : Bool
  pub l402 : Bool

abbrev pub default_protocols : Protocols
default_protocols = record { x402 = true; l402 = false }

abbrev pub enable : Text → Protocols → Result String Protocols
enable name p =
    if name == text "x402"
    then (if p.x402 then err "duplicate Lightning protocol" else ok (record p { x402 = true }))
    else if name == text "l402"
    then (if p.l402 then err "duplicate Lightning protocol" else ok (record p { l402 = true }))
    else err "unknown Lightning protocol"

unfoldable pub enable_all : Protocols → List Text → Result String Protocols
enable_all p [] = ok p
enable_all p (name ∷ names) = enable name p >>= λ q. enable_all q names

-- `Protocols::parse`
unfoldable pub parse_protocols : List Text → Result String Protocols
unfolding enable_all
parse_protocols [] = err "lightning_protocols requires x402, l402, or both"
parse_protocols (name ∷ names) = enable_all (record { x402 = false; l402 = false }) (name ∷ names)

pub record Policy : Type 0 where
  pub amount_msat : ℕ
  pub receiver : ReceiverConfig
  pub origin : Text
  pub headers : List Text
  pub protocols : Protocols

abbrev hex_digit : ℕ → Bool
hex_digit c = is_digit c || (leb b'a' c && leb c b'f')

unfoldable pub lowercase_hex : Text → Bool
unfolding is_digit
lowercase_hex s = all hex_digit s

-- `Path::is_absolute`
abbrev is_absolute : Text → Bool
is_absolute [] = false
is_absolute (c ∷ _) = nat_eq c b'/'

abbrev is_network : Text → Bool
is_network network = network == mainnet || network == testnet

unfoldable pub is_strictly_sorted : List Text → Bool
unfolding text_lt
is_strictly_sorted [] = true
is_strictly_sorted (a ∷ []) = true
is_strictly_sorted (a ∷ b ∷ names) =
    let rest = is_strictly_sorted (b ∷ names) in if text_lt a b then rest else false

abbrev forbidden_headers : List Text
forbidden_headers =
    text "payment-signature"
    ∷ text "x-cashu"
    ∷ text "connection"
    ∷ text "transfer-encoding"
    ∷ text "trailer"
    ∷ []

module _ (parsers : Parsers) where
  -- The path of an origin is "/", and it has no query.
  unfoldable pub is_origin : Url → Bool
  unfolding is_plain
  is_origin url = is_plain parsers url && (not url.has_query && url.path == text "/")

  abbrev is_endpoint : Option Url → Bool
  is_endpoint none = false
  is_endpoint (some url) = url.scheme == text "https" && is_origin url

  -- `LdkReceiverConfig::validate`
  unfoldable pub validate_ldk : LdkReceiverConfig → Result String (Unit {0})
  unfolding is_origin lowercase_hex
  validate_ldk node = do
    ensure (is_endpoint (parsers.url node.endpoint)) "ldk-server endpoint must be an HTTPS origin"
    ensure (is_absolute node.macaroon_file && is_absolute node.tls_cert_file)
        "receiver credential paths must be absolute"
    ensure (is_network node.network) "x402 Lightning supports mainnet or testnet only"
    ensure
        (nat_eq (length node.pay_to) 66
          && (lowercase_hex node.pay_to && parsers.is_public_key node.pay_to))
        "pay_to must be a compressed lowercase node public key"
    ensure (ltb 0 node.expiry_seconds && leb node.expiry_seconds 86400)
        "invoice expiry must be 1..86400 seconds"

  -- `ReceiverConfig::validate`
  unfoldable pub validate_receiver : ReceiverConfig → Result String (Unit {0})
  unfolding validate_ldk parse_mint
  validate_receiver (ldk node) = validate_ldk node
  validate_receiver (cashu mint network) =
      parse_mint parsers mint >>= λ _. ensure (is_network network) "unsupported mint network"

  abbrev bound_name : Text → Bool
  bound_name name =
      name == to_ascii_lowercase name
      && (parsers.is_header_name name && not (any (λ f. f == name) forbidden_headers))

  abbrev is_canonical : Text → Option Url → Bool
  is_canonical origin none = false
  is_canonical origin (some url) =
      (url.scheme == text "http" || url.scheme == text "https")
      && (is_origin url && origin == url.ascii_origin)

  -- `Policy::validate_binding`
  unfoldable pub validate_binding : Policy → Result String (Unit {0})
  unfolding is_origin to_ascii_lowercase mint_of is_strictly_sorted
  validate_binding policy = do
    ensure
        (not (is_some (mint_of policy.receiver))
          || (policy.protocols.l402 && not policy.protocols.x402))
        "Cashu receivers require lightning_protocols l402; Lightning x402 requires LDK Server"
    ensure (not policy.protocols.l402 || not (any (λ h. h == text "authorization") policy.headers))
        "L402 reserves Authorization for payment"
    ensure (is_canonical policy.origin (parsers.url policy.origin))
        "origin must be a canonical HTTP(S) origin without trailing slash"
    ensure (is_strictly_sorted policy.headers) "bound headers must be sorted and unique"
    ensure (all bound_name policy.headers) "invalid bound header name"

  abbrev is_number : Text → Bool
  is_number [] = false
  is_number (c ∷ s) = all_digits (c ∷ s)

  -- `Policy::new`
  unfoldable pub new :
      Text → Text → ReceiverConfig → Text → List Text → Protocols → Result String Policy
  unfolding all_digits parse_uint validate_receiver validate_binding
  new price unit receiver origin headers protocols = do
    ensure (is_number price) "Lightning price must be a positive integer"
    n ← ok_or (parse_uint u64_max price) "number too large to fit in target type"
    ensure (ltb 0 n && unit == text "sat") "Lightning price must use positive whole sats"
    validate_receiver receiver
    ensure (leb (n * 1000) u64_max) "Lightning price overflow"
    let policy : Policy = record {
      amount_msat = n * 1000;
      receiver = receiver;
      origin = origin;
      headers = headers;
      protocols = protocols;
    }
    validate_binding policy
    ok policy

  abbrev is_host_of : Text → Option Text → Bool
  is_host_of domain none = false
  is_host_of domain (some host) = host == domain

  abbrev same_bool : Bool → Bool → Bool
  same_bool true b = b
  same_bool false b = not b

  abbrev is_site : Text → Bool → Option Url → Bool
  is_site domain https none = false
  is_site domain https (some url) =
      is_host_of domain url.host_str && same_bool (url.scheme == text "https") https

  -- `Policy::check_site`
  unfoldable pub check_site : Policy → Text → Bool → Result String (Unit {0})
  check_site policy domain https =
      ensure (is_site domain https (parsers.url policy.origin))
        "Lightning origin must match its Geata site"

  abbrev settings : List Text
  settings =
      text "mint"
      ∷ text "endpoint"
      ∷ text "macaroon_file"
      ∷ text "tls_cert_file"
      ∷ text "pay_to"
      ∷ text "network"
      ∷ text "expiry_seconds"
      ∷ []

  abbrev required : Map Text Text → Text → Result String Text
  required fields name = ok_or (get name fields) "missing Lightning receiver setting"

  abbrev network_of : Text → Result String Text
  network_of name =
      if name == text "mainnet"
      then ok mainnet
      else if name == text "testnet"
      then ok testnet
      else err "Lightning network must be mainnet or testnet"

  abbrev expiry_of : Option Text → Result String ℕ
  expiry_of none = ok 300
  expiry_of (some value) = ok_or (parse_uint u32_max value) "invalid digit found in string"

  abbrev with_mint : Text → Map Text Text → Text → Result String ReceiverConfig
  with_mint network fields mint = do
    ensure (all (λ field. field.0 == text "mint" || field.0 == text "network") fields)
        "Cashu receivers accept only mint and network; do not mix LDK settings"
    url ← parse_mint parsers mint
    ok (cashu url network)

  abbrev with_node : Text → Map Text Text → Result String ReceiverConfig
  with_node network fields = do
    endpoint ← required fields (text "endpoint")
    macaroon_file ← required fields (text "macaroon_file")
    tls_cert_file ← required fields (text "tls_cert_file")
    pay_to ← required fields (text "pay_to")
    expiry_seconds ← expiry_of (get (text "expiry_seconds") fields)
    let node : LdkReceiverConfig = record {
      endpoint = endpoint;
      macaroon_file = macaroon_file;
      tls_cert_file = tls_cert_file;
      pay_to = pay_to;
      network = network;
      expiry_seconds = expiry_seconds;
    }
    validate_ldk node
    ok (ldk node)

  abbrev with_network : Text → Map Text Text → Result String ReceiverConfig
  with_network network fields = elim (get (text "mint") fields) [
    | some mint ↦ with_mint network fields mint
    | none ↦ with_node network fields
  ]

  -- `ReceiverConfig::parse`
  unfoldable pub parse_receiver : List Text → Result String ReceiverConfig
  unfolding get read_fields parse_uint parse_mint validate_ldk
  parse_receiver args = do
    fields ←
        read_fields settings "Lightning receiver settings need a name and value"
          "unknown Lightning receiver setting" "duplicate Lightning receiver setting" args
    name ← required fields (text "network")
    network ← network_of name
    with_network network fields

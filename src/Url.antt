-- ===== src/Url.antt =====
-- Addresses of services: parsed URLs, and the parsers of other packages that the configuration is read with.
use geata.Common.{
  ℕ, Bool, true, false, ◌&&◌, ◌||◌, not, Option, none, some, Result, ok, err, ◌==◌, if◌then◌else◌,
  String,
}
use geata.Common.Text.{Text, text, text_Key, trim_brackets}
use geata.Net.{IpAddr, is_loopback}

-- What the accessors of `url::Url` answer. `port` is none where it is the scheme's own, and
-- `host().to_string()` is `host_str`.
pub record Url : Type 0 where
  pub scheme : Text
  pub host_str : Option Text
  pub port : Option ℕ
  pub port_or_known_default : Option ℕ
  pub username : Text
  pub has_password : Bool
  pub path : Text
  pub has_query : Bool
  pub has_fragment : Bool
  pub as_str : Text
  -- `origin().ascii_serialization()`
  pub ascii_origin : Text

pub record Parsers : Type 0 where
  pub url : Text → Option Url
  pub ip : Text → Option IpAddr
  -- `MintUrl::from_str`, with its text as the value.
  pub mint_url : Text → Option Text
  -- `serde_json::from_str` of a string.
  pub json_string : Text → Option Text
  -- A public key of secp256k1.
  pub is_public_key : Text → Bool
  -- `HeaderName::from_bytes`
  pub is_header_name : Text → Bool

abbrev is_loopback_ip : Option IpAddr → Bool
is_loopback_ip none = false
is_loopback_ip (some ip) = is_loopback ip

module _ (parsers : Parsers) where
  -- Whether a URL's host is this computer.
  unfoldable pub is_local : Option Text → Bool
  unfolding is_loopback
  is_local none = false
  is_local (some host) =
      host == text "localhost" || is_loopback_ip (parsers.ip (trim_brackets host))

  unfoldable pub is_secure : Url → Bool
  unfolding is_local
  is_secure url = url.scheme == text "https" || (url.scheme == text "http" && is_local url.host_str)

  abbrev is_host : Option Text → Bool
  is_host none = false
  is_host (some _) = true

  -- A host, without credentials or fragment.
  unfoldable pub is_plain : Url → Bool
  is_plain url =
      is_host url.host_str
      && (url.username == text "" && (not url.has_password && not url.has_fragment))

  abbrev mint_of : Option Text → Result String Text
  mint_of none = err "invalid mint URL"
  mint_of (some mint) = ok mint

  abbrev checked_mint : Option Url → Result String Text
  checked_mint none = err "invalid Cashu mint URL"
  checked_mint (some url) =
      if not (is_secure url)
      then err "Cashu mint must use HTTPS (HTTP is allowed for loopback tests)"
      else if not (is_plain url && not url.has_query)
      then err "Cashu mint URL must not contain credentials, query, or fragment"
      else mint_of (parsers.mint_url url.as_str)

  unfoldable pub parse_mint : Text → Result String Text
  unfolding is_secure is_plain
  parse_mint value = checked_mint (parsers.url value)

-- ===== src/Config/Handler.antt =====
-- Handlers of a site (crates/geata/src/config.rs): backends, fixed responses, and the domains of sites.
use geata.Common.{
  ℕ, String, Bool, true, false, ◌&&◌, ◌||◌, not, Option, none, some, List, [], ◌∷◌, ◌++◌, Result,
  ok, err, leb, ltb, nat_eq, if◌then◌else◌, is_some, ok_or, ensure, ◌>>=◌, ◌>>◌, all, any,
  unwrap_or, ◌==◌,
}
use geata.Common.Digits.{decimal_onto, is_digit, parse_uint, keep_some}
use geata.Common.Text.{
  Text, text, text_Key, byte_length, contains, strip_suffix, split, is_alphanumeric, trim_brackets,
}
use geata.Config.Token.{Parsed, fail, Token, token_text}
use geata.Url.{Url, Parsers}

pub record Upstream : Type 0 where
  pub host : Text
  pub port : ℕ
  pub tls : Bool
  pub authority : Text

pub data Handler : Type 0 where
  proxy : Upstream → Handler
  respond : Text → ℕ → Handler

-- An error of another parser, at a line of the file.
abbrev pub at_line : {A : Type 0} → ℕ → Result String A → Parsed A
at_line line (ok a) = ok a
at_line line (err message) = fail line message

-- `{port}`; a port has at most five digits.
unfoldable pub show_port : ℕ → Text
unfolding decimal_onto
show_port port = decimal_onto 5 port []

abbrev starts_with : ℕ → Text → Bool
starts_with c [] = false
starts_with c (d ∷ _) = nat_eq c d

abbrev is_empty : Text → Bool
is_empty [] = true
is_empty (_ ∷ _) = false

abbrev is_label : Text → Bool
is_label label =
    not (is_empty label)
    && (leb (byte_length label) 63
        && (not (starts_with b'-' label)
            && (not (is_some (strip_suffix (b'-' ∷ []) label))
                && all (λ c. is_alphanumeric c || nat_eq c b'-') label)))

abbrev is_private : Text → Bool
is_private domain =
    any (λ s. is_some (strip_suffix s domain))
      (text ".localhost" ∷ text ".local" ∷ text ".internal" ∷ text ".home.arpa" ∷ [])

abbrev labels : Text × List Text → List Text
labels (label, more) = label ∷ more

module _ (parsers : Parsers) where
  -- An address only without HTTPS; a name with HTTPS has a dot and is public.
  unfoldable pub valid_domain : Text → Bool → Bool
  unfolding byte_length strip_suffix split is_alphanumeric
  valid_domain domain https =
      if is_some (parsers.ip domain)
      then not https
      else if ltb 253 (byte_length domain) || is_empty domain
      then false
      else if https && (not (any (λ c. nat_eq c b'.') domain) || is_private domain)
      then false
      else all is_label (labels (split b'.' domain))

  abbrev is_backend : Url → Bool
  is_backend url =
      (url.scheme == text "http" || url.scheme == text "https")
      && (url.username == text ""
          && (not url.has_password
              && (url.path == text "/" && (not url.has_query && not url.has_fragment))))

  abbrev authority_of : Text → Option ℕ → Text
  authority_of host none = host
  authority_of host (some port) = host ++ (b':' ∷ show_port port)

  abbrev pub upstream_of : Option Url → Result String Upstream
  upstream_of none = err "invalid backend address"
  upstream_of (some url) = do
    ensure (is_backend url)
        "backend must be an HTTP(S) host and port without credentials, path, query, or fragment"
    host ← ok_or url.host_str "backend has no host"
    port ← ok_or url.port_or_known_default "backend has no port"
    ensure (not (nat_eq port 0)) "backend port must be nonzero"
    ok (record {
      host = trim_brackets host;
      port = port;
      tls = url.scheme == text "https";
      authority = authority_of host url.port;
    })

  unfoldable pub parse_upstream : Text → Result String Upstream
  unfolding contains trim_brackets show_port
  parse_upstream value =
      upstream_of
        (parsers.url (if contains (text "://") value then value else text "http://" ++ value))

-- A code of three digits for a final response.
abbrev pub status_of : Option Text → Option ℕ
status_of none = some 200
status_of (some s) =
    keep_some (λ code. nat_eq (byte_length s) 3 && (leb 200 code && leb code 599))
      (parse_uint 65535 s)

-- Statuses whose responses have no body.
unfoldable pub is_bodyless : ℕ → Bool
is_bodyless status = nat_eq status 204 || (nat_eq status 205 || nat_eq status 304)

abbrev pub response_of : ℕ → Text → Option ℕ → Parsed Handler
response_of line body none = fail line "respond status must be a final HTTP status from 200 to 599"
response_of line body (some status) =
    if is_bodyless status && not (is_empty body)
    then fail line "status 204, 205, or 304 cannot have a response body"
    else ok (respond body status)

abbrev pub text_or_empty : Option Text → Text
text_or_empty o = unwrap_or o []

-- A lone argument that is three bare digits is the status.
abbrev pub is_status : Token → Bool
is_status t =
    not t.quoted
    && (nat_eq (byte_length (text_or_empty (token_text t))) 3
        && all is_digit (text_or_empty (token_text t)))

unfoldable pub parse_response : ℕ → List Token → Parsed Handler
unfolding byte_length parse_uint is_digit is_bodyless
parse_response line (t ∷ []) =
    if is_status t
    then response_of line [] (status_of (token_text t))
    else response_of line (text_or_empty (token_text t)) (some 200)
parse_response line (t ∷ u ∷ []) =
    response_of line (text_or_empty (token_text t)) (status_of (token_text u))
parse_response line _ = fail line "expected respond \"body\" [status] or respond <status>"

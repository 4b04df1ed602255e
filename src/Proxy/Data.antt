-- ===== src/Proxy/Data.antt =====
-- What `request_filter` of crates/geata/src/proxy.rs reads and changes.
use geata.Common.{ℕ, String, Bool, Option, List}
use geata.Common.Text.{Text}
use geata.Common.Exec.{Exec}
use geata.Net.{IpAddr}
use geata.RateLimit.{RateLimiter}
use geata.Capacity.{Capacity, CapacityPermit}
use geata.Payments.Monad.{PaymentError}

-- The parts of a request's header that the filter reads. A value is `none` where `to_str` fails.
pub record Request : Type 0 where
  pub host : Option Text
  pub uri_authority : Option Text
  pub path : Text
  pub path_and_query : Option Text
  pub is_get : Bool
  -- The `Content-Length`, where there is one that parses.
  pub content_length : Option ℕ
  pub x_cashu : List (Option Text)
  pub payment_signature : List (Option Text)
  pub authorization : List (Option Text)

pub record Protocols : Type 0 where
  pub x402 : Bool
  pub l402 : Bool

pub data Handler : Type 0 where
  proxy : Handler
  respond : String → ℕ → Handler

-- A site's settings, as far as the filter reads them; its limiters stand in `Session`.
pub record Site : Type 0 where
  pub https : Bool
  pub handler : Handler
  pub has_payment : Bool
  pub lightning : Option Protocols
  pub max_body_bytes : Option ℕ

pub record Challenge : Type 0 where
  pub x402_challenge : Option String
  pub l402_challenge : Option String

pub data LightningError : Type 0 where
  invalid_payment payments_unavailable : LightningError

-- A redirect's target: the domain, a port other than 443, and the path with its query.
pub record Location : Type 0 where
  pub domain : Text
  pub port : Option ℕ
  pub target : Text

pub data Header : Type 0 where
  no_store : Header
  retry_after : ℕ → Header
  location : Location → Header
  www_authenticate : String → Header
  cashu_challenge : Header
  payment_required : String → Header
  payment_response : String → Header

pub record Reply : Type 0 where
  pub status : ℕ
  pub body : String
  pub headers : List Header

-- How the filter stops early: with a response of its own, or with an internal error.
pub data Stop : Type 0 where
  refused : Reply → Stop
  no_client_ip : Stop

-- What becomes of a request that passes every check: the backend's, or the site's static response.
pub data Outcome : Type 0 where
  forwarded : Outcome
  served : Reply → Outcome

-- What the filter changes: the request that is passed on, the limiters that it shares with other
-- requests (`free` and `capacity` where the site has them), and its own context.
pub record Session : Type 0 where
  pub request : Request
  pub redirects : RateLimiter
  pub verification : RateLimiter
  pub free : Option RateLimiter
  pub capacity : Option Capacity
  pub permit : Option CapacityPermit
  pub receipt : Option String

-- What other components answer if the filter asks them for this request.
pub record Answers : Type 0 where
  -- `State::challenges` at the domain and the token.
  pub acme : Text → Text → Option String
  pub has_lightning : Bool
  pub has_payments : Bool
  -- What `request_domain` reads the `Host` as by the parser of authorities: its text and its host.
  pub authority : Text → Option (Text × Text)
  -- Whether `lightning_binding` binds the request.
  pub binds : Bool
  pub settles_x402 : Text → Option LightningError
  pub x402_receipt : String
  pub settles_l402 : Text → Option LightningError
  pub collects : Text → Option PaymentError
  pub challenge : Option Challenge

-- The connection and the process: the client's address, TLS, the port for redirects, the clock.
pub record Connection : Type 0 where
  pub client : Option IpAddr
  pub tls : Bool
  pub https_port : ℕ
  pub now : ℕ

abbrev pub Filter : Type 0 → Type 0
Filter A = Exec Session Stop A

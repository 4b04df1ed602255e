-- ===== src/Proxy/Guards.antt =====
-- crates/geata/src/proxy.rs: the stages of `request_filter` before any payment. Each returns early by
-- `raise`, as the source does by `return`.
use geata.Common.{
  ◌*◌, ℕ, ◌/◌, ◌%◌, String, Bool, true, false, ◌&&◌, ◌||◌, not, Option, none, some, List, [], ◌∷◌,
  Result, ok, err, nat_eq, ltb, length, if◌then◌else◌, is_some, saturating_add, u64_max, unwrap_or,
}
use geata.Common.Exec.{pure, raise, ◌>>=◌}
use geata.Common.Text.{Text, text}
use geata.Net.{IpAddr}
use geata.RateLimit.{RateLimiter, check_with_clock}
use geata.Capacity.{Capacity, CapacityPermit, try_acquire}
use geata.Proxy.Data.{
  Request, Site, Location, Header, no_store, retry_after, location, refused, no_client_ip, Answers,
  Connection, Filter,
}

abbrev pub max_payment_header : ℕ
max_payment_header = 24 * 1024

abbrev pub reply : {A : Type 0} → ℕ → String → List Header → Filter A
reply status body headers =
    raise (refused (record { status = status; body = body; headers = headers }))

abbrev pub present : {A : Type 0} → List A → Bool
present [] = false
present (_ ∷ _) = true

-- `Retry-After` in whole seconds, rounded up, of a wait in nanoseconds.
unfoldable pub seconds : ℕ → ℕ
seconds wait =
    saturating_add u64_max (wait / 1_000_000_000) (if nat_eq (wait % 1_000_000_000) 0 then 0 else 1)

abbrev pub has_l402 : Site → Bool
has_l402 site = elim site.lightning [ none ↦ false | some p ↦ p.l402 ]

abbrev pub lacks_x402 : Site → Bool
lacks_x402 site = elim site.lightning [ none ↦ false | some p ↦ not p.x402 ]

abbrev pub has_lightning_policy : Site → Bool
has_lightning_policy site = is_some site.lightning

-- `client.ok_or_else(…)`
abbrev pub client_ip : Connection → Filter IpAddr
client_ip c = elim c.client [ none ↦ raise no_client_ip | some ip ↦ pure ip ]

abbrev pub strip_prefix : Text → Text → Option Text
strip_prefix [] s = some s
strip_prefix (p ∷ ps) [] = none
strip_prefix (p ∷ ps) (c ∷ s) = let rest = strip_prefix ps s in if nat_eq p c then rest else none

abbrev pub acme_prefix : Text
acme_prefix = text "/.well-known/acme-challenge/"

-- The answer to a certificate challenge.
unfoldable pub serve_challenge : Answers → Request → Text → Text → Filter (Unit {0})
serve_challenge a request domain token = elim (a.acme domain token) [
  | none ↦ reply 404 "No active certificate challenge.\n" []
  | some response ↦
      if request.is_get
      then reply 200 response []
      else reply 404 "No active certificate challenge.\n" []
]

abbrev too_many : {A : Type 0} → String → ℕ → Filter A
too_many body wait = reply 429 body (retry_after (seconds wait) ∷ no_store ∷ [])

abbrev https_location : Connection → Text → Request → Location
https_location c domain request = record {
  domain = domain;
  port = if nat_eq c.https_port 443 then none else some c.https_port;
  target = unwrap_or request.path_and_query (text "/");
}

module _ (hash_one : IpAddr → ℕ) where
  -- `map_or(Err(1 s), |ip| redirects.check(ip))`
  unfoldable pub check_redirect :
      RateLimiter → Option IpAddr → ℕ → RateLimiter × Result ℕ (Unit {0})
  check_redirect r none now = (r, err 1_000_000_000)
  check_redirect r (some ip) now = check_with_clock hash_one r ip now

  abbrev pub redirected : Connection → Text → RateLimiter × Result ℕ (Unit {0}) → Filter (Unit {0})
  redirected c domain (redirects, err wait) s =
      too_many "Too many redirects.\n" wait (record s { redirects = redirects })
  redirected c domain (redirects, ok _) s =
      reply 308 "Redirecting to HTTPS.\n" (location (https_location c domain s.request) ∷ [])
        (record s { redirects = redirects })

  -- A plaintext request for a site with HTTPS is redirected, within the redirect limiter.
  unfoldable pub redirect : Connection → Text → Filter (Unit {0})
  unfolding check_redirect
  redirect c domain s = redirected c domain (check_redirect s.redirects c.client c.now) s

  abbrev pub plain_site : Connection → Answers → Site → Text → Option Text → Filter (Unit {0})
  plain_site c a site domain (some token) s = serve_challenge a s.request domain token s
  plain_site c a site domain none s = (if site.https then redirect c domain else pure tt) s

  unfoldable pub plaintext : Connection → Answers → Site → Text → Filter (Unit {0})
  unfolding redirect serve_challenge
  plaintext c a site domain s =
      plain_site c a site domain (strip_prefix acme_prefix s.request.path) s

  -- The scheme: challenges and redirects over plaintext, and no HTTP site over TLS.
  unfoldable pub check_scheme : Connection → Answers → Site → Text → Filter (Unit {0})
  unfolding plaintext
  check_scheme c a site domain =
      if not c.tls
      then plaintext c a site domain
      else if not site.https
      then reply 404 "This site is configured for HTTP only.\n" []
      else pure tt

abbrev exceeds : Option ℕ → Option ℕ → Bool
exceeds none length = false
exceeds (some most) none = false
exceeds (some most) (some n) = ltb most n

unfoldable pub check_length : Site → Filter (Unit {0})
check_length site s =
    (if exceeds site.max_body_bytes s.request.content_length
        then reply 413 "Request body too large.\n" []
        else pure tt)
      s

unfoldable pub is_attempt : Site → Request → Bool
is_attempt site request =
    (site.has_payment && present request.x_cashu)
    || (has_lightning_policy site
        && (present request.payment_signature || (has_l402 site && present request.authorization)))

module _ (hash_one : IpAddr → ℕ) where
  abbrev pub verified : RateLimiter × Result ℕ (Unit {0}) → Filter (Unit {0})
  verified (limiter, ok _) s = (ok tt, record s { verification = limiter })
  verified (limiter, err wait) s =
      too_many "Too many payment verification attempts.\n" wait
        (record s { verification = limiter })

  unfoldable pub verify_limit : ℕ → IpAddr → Filter (Unit {0})
  verify_limit now ip s = verified (check_with_clock hash_one s.verification ip now) s

  -- Attempts to pay are limited before anything is verified.
  unfoldable pub limit_attempts : Connection → Site → Filter (Unit {0})
  unfolding verify_limit is_attempt
  limit_attempts c site s =
      (if is_attempt site s.request then (client_ip c >>= verify_limit c.now) else pure tt) s

abbrev pub acquired : Capacity × Option CapacityPermit → Filter (Unit {0})
acquired (rest, some p) s = (ok tt, record s { capacity = some rest; permit = some p })
acquired (rest, none) s =
    reply 503 "Site is at capacity.\n" (retry_after 1 ∷ no_store ∷ [])
      (record s { capacity = some rest })

abbrev pub acquire : Connection → Option Capacity → Filter (Unit {0})
acquire c none = pure tt
acquire c (some capacity) = client_ip c >>= λ ip. acquired (try_acquire capacity ip)

unfoldable pub take_capacity : Connection → Filter (Unit {0})
take_capacity c s = acquire c s.capacity s

-- ===== src/Proxy/Steps.antt =====
-- crates/geata/src/proxy.rs: the stages of `request_filter` before any payment, when they let a request on.
use geata.Common.{
  ℕ, ◌≡◌, refl, ap, sym, inl, inr, false, not, Option, none, some, Result, ok, err, arith,
}
use geata.Common.Exec.{pure, ◌>>=◌}
use geata.Common.Text.{Text, text_Key}
use geata.Net.{IpAddr}
use geata.RateLimit.{RateLimiter, check_with_clock}
use geata.Capacity.{Capacity, CapacityPermit, try_acquire}
use geata.Proxy.Data.{Request, Site, Stop, Session, Answers, Connection}
use geata.Proxy.Guards.{
  client_ip, redirect, plaintext, serve_challenge, check_scheme, redirected, plain_site, verified,
  acquired, acquire, strip_prefix, acme_prefix, client_ip, check_redirect, check_length,
  verify_limit, limit_attempts, is_attempt,
}
use geata.Proxy.Chain.{continue-ok, if-ok, client_ip-ok}

pub check_length-ok : (site : Site) (s t : Session) → check_length site s ≡ (ok tt, t) → t ≡ s
unfolding check_length
check_length-ok site s t h = ground arith

-- The part of the session that this stage leaves as it was.
abbrev Same : Session → Session → Type 0
Same s t =
    (t.request ≡ s.request) × (t.free ≡ s.free) × (t.capacity ≡ s.capacity) × (t.permit ≡ s.permit)

module _ (hash_one : IpAddr → ℕ) where
  serve_challenge-ok :
      (a : Answers) (r : Request) (domain token : Text) (s t : Session)
      → ¬ (serve_challenge a r domain token s ≡ (ok tt, t))
  unfolding serve_challenge
  serve_challenge-ok a r domain token s t h = ground arith

  redirected-ok :
      (c : Connection) (domain : Text) (p : RateLimiter × Result ℕ (Unit {0})) (s t : Session)
      → ¬ (redirected hash_one c domain p s ≡ (ok tt, t))
  redirected-ok c domain (r, ok _) s t h = ground arith
  redirected-ok c domain (r, err _) s t h = ground arith

  plain_site-ok :
      (c : Connection) (a : Answers) (site : Site) (domain : Text) (token : Option Text)
      (s t : Session)
      → plain_site hash_one c a site domain token s ≡ (ok tt, t)
      → (site.https ≡ false) × (t ≡ s)
  unfolding redirect
  plain_site-ok c a site domain (some token) s t h =
      absurd (serve_challenge-ok a s.request domain token s t h)
  plain_site-ok c a site domain none s t h =
      elim (if-ok site.https (redirect hash_one c domain) (pure tt) s h) [
        | inl (e, k) ↦
            absurd
              (redirected-ok c domain (check_redirect hash_one s.redirects c.client c.now) s t k)
        | inr (e, k) ↦ ground arith
      ]

  pub check_scheme-ok :
      (c : Connection) (a : Answers) (site : Site) (domain : Text) (s t : Session)
      → check_scheme hash_one c a site domain s ≡ (ok tt, t)
      → (site.https ≡ c.tls) × (t ≡ s)
  unfolding check_scheme plaintext
  check_scheme-ok c a site domain s t h =
      elim (if-ok (not c.tls) (plaintext hash_one c a site domain) _ s h) [
        | inl (e, k) ↦
            let r = plain_site-ok c a site domain (strip_prefix acme_prefix s.request.path) s t k in
            (ground (arith, r.0), r.1)
        | inr (e, k) ↦ ground arith
      ]

  verified-ok :
      (p : RateLimiter × Result ℕ (Unit {0})) (s t : Session)
      → verified hash_one p s ≡ (ok tt, t)
      → Same s t
  verified-ok (r, ok _) s t h = ground arith
  verified-ok (r, err _) s t h = ground arith

  pub limit_attempts-ok :
      (c : Connection) (site : Site) (s t : Session)
      → limit_attempts hash_one c site s ≡ (ok tt, t)
      → Same s t
  unfolding limit_attempts verify_limit
  limit_attempts-ok c site s t h =
      elim (if-ok (is_attempt site s.request) (client_ip c >>= verify_limit hash_one c.now)
        (pure tt) s h) [
          | inl (e, k) ↦
              let (ip, s1, h1, k1) = continue-ok (verify_limit hash_one c.now) (client_ip c s) k in
              let same : Same s1 t =
                verified-ok (check_with_clock hash_one s1.verification ip c.now) s1 t k1 in
              let first = client_ip-ok c s s1 ip h1 in ground (arith, same, first)
          | inr (e, k) ↦ ground arith
        ]

acquired-ok :
    (p : Capacity × Option CapacityPermit) (s t : Session)
    → acquired p s ≡ (ok tt, t)
    → (t.request ≡ s.request)
      × (t.free ≡ s.free)
      × (q : CapacityPermit) × (p.1 ≡ some q)
      × (t.permit ≡ some q)
acquired-ok (rest, some q) s t h =
    let e : t ≡ record s { capacity = some rest; permit = some q } =
      sym (ap (λ (p : Result Stop (Unit {0}) × Session). p.1) h) in
    (
      ap (λ (u : Session). u.request) e,
      ap (λ (u : Session). u.free) e,
      q,
      refl,
      ap (λ (u : Session). u.permit) e,
    )
acquired-ok (rest, none) s t h = absurd (ground arith)

-- The request holds a permit of the site's capacity, where the site has one.
abbrev pub HoldsPermit : Connection → Option Capacity → Option CapacityPermit → Type 0
HoldsPermit c none permit = Unit
HoldsPermit c (some capacity) permit =
    (ip : IpAddr) × (q : CapacityPermit) × (c.client ≡ some ip)
    × ((try_acquire capacity ip).1 ≡ some q)
    × (permit ≡ some q)

pub acquire-ok :
    (c : Connection) (o : Option Capacity) (s t : Session)
    → acquire c o s ≡ (ok tt, t)
    → (t.request ≡ s.request) × (t.free ≡ s.free) × HoldsPermit c o t.permit
acquire-ok c none s t h = ground arith
acquire-ok c (some capacity) s t h =
    let (ip, s1, h1, k1) =
      continue-ok (λ ip. acquired (try_acquire capacity ip)) (client_ip c s) h in
    let first = client_ip-ok c s s1 ip h1 in
    let (same, free, q, e, held) = acquired-ok (try_acquire capacity ip) s1 t k1 in
    (ground (arith, first, same), ground (arith, first, free), (ip, q, first.0, e, held))

-- ===== src/Proxy/Access.antt =====
-- crates/geata/src/proxy.rs: what a request that `request_filter` lets through has shown.
use geata.Common.{
  Bool, if◌then◌else◌, ℕ, ◌≡◌, ◌∙◌, refl, subst, ap, sym, inl, inr, true, false, ◌&&◌, Option, none,
  some, List, [], ◌∷◌, Result, ok, arith,
}
use geata.Common.Exec.{◌>>=◌}
use geata.Common.Map.{Map, get}
use geata.Common.Text.{Text, text_Key}
use geata.Net.{IpAddr}
use geata.RateLimit.{RateLimiter}
use geata.Proxy.Data.{Request, Site, Stop, Outcome, Session, Answers, Connection, Filter}
use geata.Proxy.Guards.{
  present, has_l402, lacks_x402, has_lightning_policy, check_scheme, check_length, limit_attempts,
  take_capacity,
}
use geata.Proxy.Payment.{
  is_gated, credential, l402_header, check_method, lightning_header, pay_cashu, free_request,
  pay_without_lightning, pay,
}
use geata.Proxy.Chain.{continue-ok, if-ok}
use geata.Proxy.Entitled.{
  Kept, SettlesLightning, CollectsToken, Allowed, IsOpen, PresentsL402, PresentsX402,
  l402_header-ok, check_method-ok, lightning_header-ok, pay_lightning-ok, pay_cashu-ok,
  free_request-ok,
}
use geata.Proxy.Steps.{check_length-ok, check_scheme-ok, limit_attempts-ok, HoldsPermit, acquire-ok}
use geata.Proxy.Filter.{
  domain_or, domain_for, authority_of, find_domain, site_for, strip_credentials, handle, authorize,
  request_filter,
}

-- Why a request may pass: it pays with a lightning credential, with a lightning signature or with a
-- token; or the client has a free allowance left; or the site asks for nothing.
pub data IsEntitled (hash_one : IpAddr → ℕ) (c : Connection) (a : Answers) (site : Site)
    (r : Request) (free : Option RateLimiter) : Type 0 where
  by_l402 :
      (value : Option Text) (token : Text)
      → has_l402 site ≡ true
      → r.authorization ≡ value ∷ []
      → credential value ≡ some token
      → SettlesLightning c a (a.settles_l402 token)
      → IsEntitled hash_one c a site r free
  by_x402 :
      (token : Text)
      → has_lightning_policy site ≡ true
      → lacks_x402 site ≡ false
      → r.payment_signature ≡ some token ∷ []
      → SettlesLightning c a (a.settles_x402 token)
      → IsEntitled hash_one c a site r free
  by_token :
      (token : Text)
      → site.has_payment ≡ true
      → r.x_cashu ≡ some token ∷ []
      → CollectsToken c a token
      → IsEntitled hash_one c a site r free
  by_allowance : Allowed hash_one c free → IsEntitled hash_one c a site r free
  by_open_site : IsOpen hash_one site free → IsEntitled hash_one c a site r free

module _ (hash_one : IpAddr → ℕ) (c : Connection) (a : Answers) (site : Site) where
  free-Entitled :
      (s t : Session)
      → free_request hash_one c a site s ≡ (ok tt, t)
      → Kept s t × IsEntitled hash_one c a site s.request s.free
  free-Entitled s t h =
      let r = free_request-ok hash_one c a site s t h in
      (r.0, elim r.1 [ inl e ↦ by_allowance e | inr e ↦ by_open_site e ])

  unpaid-Entitled :
      (values : List (Option Text)) (s t : Session)
      → s.request.x_cashu ≡ values
      → pay_without_lightning hash_one c a site values s ≡ (ok tt, t)
      → Kept s t × IsEntitled hash_one c a site s.request s.free
  unfolding pay_without_lightning
  unpaid-Entitled [] s t e h = free-Entitled s t h
  unpaid-Entitled (value ∷ rest) s t e h =
      elim (if-ok site.has_payment (pay_cashu c a value rest) (free_request hash_one c a site) s
        h) [
          | inl (taken, k) ↦
              let (same, token, one, collects) = pay_cashu-ok c a value rest s t k in
              (ground (arith, same), by_token token taken (e ∙ one) collects)
          | inr (taken, k) ↦ free-Entitled s t k
        ]

  pay-Entitled :
      (l402 signature : Option Text) (s t : Session)
      → PresentsL402 site s.request l402
      → PresentsX402 site s.request signature
      → (lacks_x402 site && present s.request.payment_signature) ≡ false
      → pay hash_one c a site l402 signature s ≡ (ok tt, t)
      → Kept s t × IsEntitled hash_one c a site s.request s.free
  unfolding pay
  pay-Entitled (some token) signature s t (on, value, one, is) q e h =
      let r = pay_lightning-ok c a true token s t h in (r.0, by_l402 value token on one is r.1)
  pay-Entitled none (some token) s t p (on, one) e h =
      let r = pay_lightning-ok c a false token s t h in
      (r.0, by_x402 token on (ground arith) one r.1)
  pay-Entitled none none s t p q e h = unpaid-Entitled s.request.x_cashu s t refl h

  -- The stages from the credentials on.
  paid-Entitled :
      (s t : Session)
      → (l402_header site >>= λ l402. check_method site l402 >>= λ _.
            lightning_header site >>= λ lightning. pay hash_one c a site l402 lightning)
          s
        ≡ (ok tt, t)
      → Kept s t × IsEntitled hash_one c a site s.request s.free
  paid-Entitled s t h =
      let last : Option Text → Option Text → Filter (Unit {0}) =
        λ l402 lightning. pay hash_one c a site l402 lightning in
      let signature : Option Text → Filter (Unit {0}) =
        λ l402. lightning_header site >>= last l402 in
      let method : Option Text → Filter (Unit {0}) =
        λ l402. check_method site l402 >>= λ _. signature l402 in
      let (o, s1, h1, k1) = continue-ok method (l402_header site s) h in
      let (u2, s2, h2, k2) = continue-ok (λ _. signature o) (check_method site o s1) k1 in
      let (x, s3, h3, k3) = continue-ok (last o) (lightning_header site s2) k2 in
      let (e1, p1) = l402_header-ok site s s1 o h1 in
      let (e2, p2) = check_method-ok site o s1 s2 h2 in
      let (e3, p3) = lightning_header-ok site s2 s3 x h3 in
      pay-Entitled o x s t p1 (subst (λ (u : Session). PresentsX402 site u.request x) (e2 ∙ e1) p3)
        (subst (λ (u : Session). (lacks_x402 site && present u.request.payment_signature) ≡ false)
          e1 p2)
        (subst (λ u. pay hash_one c a site o x u ≡ (ok tt, t)) (e3 ∙ e2 ∙ e1) k3)

  authorize-Entitled :
      (domain : Text) (s t : Session)
      → authorize hash_one c a site domain s ≡ (ok tt, t)
      → (site.https ≡ c.tls)
        × (t.request ≡ s.request)
        × HoldsPermit c s.capacity t.permit
        × IsEntitled hash_one c a site s.request s.free
  unfolding authorize take_capacity
  authorize-Entitled domain s t h =
      let paid : Unit {0} → Filter (Unit {0}) = λ _. l402_header site >>= λ l402.
      check_method site l402 >>= λ _.
      lightning_header site >>= λ lightning. pay hash_one c a site l402 lightning in
      let capacity : Unit {0} → Filter (Unit {0}) = λ _. take_capacity c >>= paid in
      let attempts : Unit {0} → Filter (Unit {0}) =
        λ _. limit_attempts hash_one c site >>= capacity in
      let (u1, s1, h1, k1) =
        continue-ok (λ _. check_length site >>= attempts) (check_scheme hash_one c a site domain s)
          h in
      let (u2, s2, h2, k2) = continue-ok attempts (check_length site s1) k1 in
      let (u3, s3, h3, k3) = continue-ok capacity (limit_attempts hash_one c site s2) k2 in
      let (u4, s4, h4, k4) = continue-ok paid (take_capacity c s3) k3 in
      let (scheme, e1) = check_scheme-ok hash_one c a site domain s s1 h1 in
      let e2 = check_length-ok site s1 s2 h2 in
      let (q3, f3, c3, p3) = limit_attempts-ok hash_one c site s2 s3 h3 in
      let (q4, f4, held) = acquire-ok c s3.capacity s3 s4 h4 in
      let ((q, p), entitled) = paid-Entitled s4 t k4 in
      let early = e2 ∙ e1 in
      let request = q4 ∙ q3 ∙ ap (λ (u : Session). u.request) early in
      let free = f4 ∙ f3 ∙ ap (λ (u : Session). u.free) early in
      let capacity_same = c3 ∙ ap (λ (u : Session). u.capacity) early in
      (
        scheme,
        q ∙ request,
        subst (λ o. HoldsPermit c o t.permit) capacity_same
            (subst (HoldsPermit c s3.capacity) (sym p) held),
        subst (λ r. IsEntitled hash_one c a site r s.free) request
            (subst (IsEntitled hash_one c a site s4.request) free entitled),
      )

domain_or-ok :
    (o : Option Text) (s t : Session) (domain : Text) → domain_or o s ≡ (ok domain, t) → t ≡ s
domain_or-ok none s t domain h = absurd (ground arith)
domain_or-ok (some x) s t domain h = ap (λ (p : Result Stop Text × Session). p.1) (sym h)

find_domain-ok :
    (a : Answers) (s t : Session) (domain : Text) → find_domain a s ≡ (ok domain, t) → t ≡ s
unfolding find_domain
find_domain-ok a s t domain h = domain_or-ok (domain_for a (authority_of s.request)) s t domain h

site_for-ok :
    (o : Option Site) (s t : Session) (site : Site)
    → site_for o s ≡ (ok site, t)
    → (o ≡ some site) × (t ≡ s)
site_for-ok none s t site h = absurd (ground arith)
site_for-ok (some x) s t site h =
    (ground arith, ap (λ (p : Result Stop Site × Session). p.1) (sym h))

-- What is passed on: the request without the headers by which it may pay.
abbrev pub IsStripped : Site → Request → Request → Type 0
IsStripped site before after =
    (after.x_cashu ≡ (if is_gated site then [] else before.x_cashu))
    × (after.payment_signature ≡ (if is_gated site then [] else before.payment_signature))
    × (after.authorization ≡ (if has_l402 site then [] else before.authorization))
    × (after.host ≡ before.host)
    × (after.path_and_query ≡ before.path_and_query)

stripped :
    (l402 gated : Bool) (r : Request)
    → let q : Request = if l402 then record r { authorization = [] } else r in
      let p : Request = if gated then record q { x_cashu = []; payment_signature = [] } else q in
      (p.x_cashu ≡ (if gated then [] else r.x_cashu))
      × (p.payment_signature ≡ (if gated then [] else r.payment_signature))
      × (p.authorization ≡ (if l402 then [] else r.authorization))
      × (p.host ≡ r.host)
      × (p.path_and_query ≡ r.path_and_query)
stripped true true r = (refl, refl, refl, refl, refl)
stripped true false r = (refl, refl, refl, refl, refl)
stripped false true r = (refl, refl, refl, refl, refl)
stripped false false r = (refl, refl, refl, refl, refl)

strip_credentials-IsStripped :
    (site : Site) (r : Request) → IsStripped site r (strip_credentials site r)
unfolding strip_credentials
strip_credentials-IsStripped site r = stripped (has_l402 site) (is_gated site) r

-- A request that passes `request_filter`, whether it goes on to the backend or is answered by the
-- static response, is for a configured site, came over TLS exactly if the site has HTTPS, holds a
-- permit where the site has a capacity, and is entitled: a payment in its own headers was settled
-- or collected and did not come in clear from another machine, or the free allowance admitted the
-- client, or the site asks for nothing. What is passed on is the request without the credentials.
pub request_filter-Entitled :
    (hash_one : IpAddr → ℕ) (c : Connection) (a : Answers) (sites : Map Text Site) (s t : Session)
    (o : Outcome)
    → request_filter hash_one c a sites s ≡ (ok o, t)
    → (domain : Text) × (site : Site) × ((find_domain a s).0 ≡ ok domain)
      × (get domain sites ≡ some site)
      × (site.https ≡ c.tls)
      × IsStripped site s.request t.request
      × HoldsPermit c s.capacity t.permit
      × IsEntitled hash_one c a site s.request s.free
unfolding request_filter handle
request_filter-Entitled hash_one c a sites s t o h =
    let handled : Site → Unit {0} → Filter Outcome = λ site _. handle site in
    let checked : Text → Site → Filter Outcome =
      λ domain site. authorize hash_one c a site domain >>= handled site in
    let found : Text → Filter Outcome = λ domain. site_for (get domain sites) >>= checked domain in
    let (domain, s1, h1, k1) = continue-ok found (find_domain a s) h in
    let (site, s2, h2, k2) = continue-ok (checked domain) (site_for (get domain sites) s1) k1 in
    let (u, s3, h3, k3) = continue-ok (handled site) (authorize hash_one c a site domain s2) k2 in
    let (scheme, request, held, entitled) = authorize-Entitled hash_one c a site domain s2 s3 h3 in
    let same1 : s1 ≡ s = find_domain-ok a s s1 domain h1 in
    let (is_site, same2) = site_for-ok (get domain sites) s1 s2 site h2 in
    let same : s2 ≡ s = same2 ∙ same1 in
    let passed : t.request ≡ strip_credentials site s3.request =
      ap (λ (p : Result Stop Outcome × Session). p.1.request) (sym k3) in
    (
      domain,
      site,
      ap (λ (p : Result Stop Text × Session). p.0) h1,
      is_site,
      scheme,
      subst (IsStripped site s.request)
          (sym
            (passed ∙ ap (strip_credentials site) (request ∙ ap (λ (u : Session). u.request) same)))
          (strip_credentials-IsStripped site s.request),
      subst (λ (u : Session). HoldsPermit c u.capacity t.permit) same
          (subst (HoldsPermit c s2.capacity)
            (ap (λ (p : Result Stop Outcome × Session). p.1.permit) k3) held),
      subst (λ (u : Session). IsEntitled hash_one c a site u.request u.free) same entitled,
    )

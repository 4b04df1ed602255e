-- ===== src/Proxy/Entitled.antt =====
-- crates/geata/src/proxy.rs: what the payment stages of `request_filter` let pass.
use geata.Common.{
  ℕ, ◌≡◌, refl, Bool-cases, Option-cases, ap, sym, sym, ◌⊎◌, inl, inr, String, Bool, true, false,
  ◌&&◌, ◌||◌, not, Option, none, some, List, [], ◌∷◌, Result, ok, err, arith, if◌then◌else◌,
  is_some,
}
use geata.Common.Exec.{pure, ◌>>=◌}
use geata.Common.Text.{Text}
use geata.Net.{is_loopback, IpAddr}
use geata.RateLimit.{RateLimiter, check_with_clock}
use geata.Payments.Monad.{PaymentError}
use geata.Proxy.Data.{
  Request, Site, LightningError, invalid_payment, payments_unavailable, Stop, Session, Answers,
  Connection,
}
use geata.Proxy.Guards.{present, has_l402, lacks_x402, has_lightning_policy, client_ip}
use geata.Proxy.Payment.{
  credential, accept_credential, read_credential, l402_header, check_method, accept_signature,
  read_signature, lightning_header, is_exposed, lightning_refused, settled, pay_lightning,
  collected, collect_text, pay_cashu, is_gated, ask_payment, required, allowed, use_allowance,
  free_request,
}
use geata.Proxy.Chain.{continue-ok, if-ok, guard-ok, client_ip-ok}

-- The request has one `Authorization`, and its credential is `token`.
abbrev pub PresentsL402 : Site → Request → Option Text → Type 0
PresentsL402 site r none = Unit
PresentsL402 site r (some token) =
    (has_l402 site ≡ true)
    × (value : Option Text) × (r.authorization ≡ value ∷ [])
    × (credential value ≡ some token)

accept_credential-ok :
    (o : Option Text) (rest : List (Option Text)) (s t : Session) (token : Option Text)
    → accept_credential o rest s ≡ (ok token, t)
    → (rest ≡ []) × (o ≡ token) × (t ≡ s)
accept_credential-ok (some x) [] s t token h = ground arith
accept_credential-ok (some x) (_ ∷ _) s t token h = absurd (ground arith)
accept_credential-ok none rest s t token h = absurd (ground arith)

read_credential-ok :
    (values : List (Option Text)) (s t : Session) (o : Option Text)
    → read_credential values s ≡ (ok o, t)
    → (t ≡ s)
      × ((o ≡ none) ⊎ ((value : Option Text) × (values ≡ value ∷ []) × (credential value ≡ o)))
read_credential-ok [] s t o h = ground arith
read_credential-ok (value ∷ rest) s t o h =
    let (e, f, g) = accept_credential-ok (credential value) rest s t o h in
    (g, inr (value, ap (λ (r : List (Option Text)). value ∷ r) e, f))

presents :
    (site : Site) (r : Request) (o : Option Text)
    → has_l402 site ≡ true
    → (o ≡ none) ⊎ ((value : Option Text) × (r.authorization ≡ value ∷ []) × (credential value ≡ o))
    → PresentsL402 site r o
presents site r none e h = tt
presents site r (some token) e (inl k) = absurd (ground arith)
presents site r (some token) e (inr (value, f, g)) = (e, value, f, g)

unpresented : (site : Site) (r : Request) (o : Option Text) → o ≡ none → PresentsL402 site r o
unpresented site r none e = tt
unpresented site r (some token) e = absurd (ground arith)

pub l402_header-ok :
    (site : Site) (s t : Session) (o : Option Text)
    → l402_header site s ≡ (ok o, t)
    → (t ≡ s) × PresentsL402 site s.request o
unfolding l402_header
l402_header-ok site s t o h =
    elim (if-ok (has_l402 site) (read_credential s.request.authorization) (pure none) s h) [
      | inl (e, k) ↦
          let r = read_credential-ok s.request.authorization s t o k in
          (r.0, presents site s.request o e r.1)
      | inr (e, k) ↦ (ground arith, unpresented site s.request o (ground arith))
    ]

pub check_method-ok :
    (site : Site) (o : Option Text) (s t : Session)
    → check_method site o s ≡ (ok tt, t)
    → (t ≡ s) × ((lacks_x402 site && present s.request.payment_signature) ≡ false)
unfolding check_method
check_method-ok site o s t h = ground arith

-- The request has one `Payment-Signature`, which is `token`.
abbrev pub PresentsX402 : Site → Request → Option Text → Type 0
PresentsX402 site r none = Unit
PresentsX402 site r (some token) =
    (has_lightning_policy site ≡ true) × (r.payment_signature ≡ some token ∷ [])

accept_signature-ok :
    (o : Option Text) (s t : Session) (token : Option Text)
    → accept_signature o s ≡ (ok token, t)
    → (o ≡ token) × (t ≡ s)
accept_signature-ok none s t token h = absurd (ground arith)
accept_signature-ok (some x) s t token h = ground arith

singleton :
    (value o : Option Text) (rest : List (Option Text))
    → value ≡ o
    → present rest ≡ false
    → (value ∷ rest) ≡ (o ∷ [])
singleton value o [] e h = ap (λ v. v ∷ []) e
singleton value o (_ ∷ _) e h = absurd (ground arith)

read_signature-ok :
    (values cashu : List (Option Text)) (s t : Session) (o : Option Text)
    → read_signature values cashu s ≡ (ok o, t)
    → (t ≡ s) × ((o ≡ none) ⊎ (values ≡ o ∷ []))
read_signature-ok [] cashu s t o h = ground arith
read_signature-ok (value ∷ rest) cashu s t o h =
    elim (if-ok (present rest || present cashu) _ (accept_signature value) s h) [
      | inl (e, k) ↦ absurd (ground arith)
      | inr (e, k) ↦
          let r = accept_signature-ok value s t o k in
          (r.1, inr (singleton value o rest r.0 (ground arith)))
    ]

presents_signature :
    (site : Site) (r : Request) (o : Option Text)
    → has_lightning_policy site ≡ true
    → (o ≡ none) ⊎ (r.payment_signature ≡ o ∷ [])
    → PresentsX402 site r o
presents_signature site r none e h = tt
presents_signature site r (some token) e (inl k) = absurd (ground arith)
presents_signature site r (some token) e (inr k) = (e, k)

no_signature : (site : Site) (r : Request) (o : Option Text) → o ≡ none → PresentsX402 site r o
no_signature site r none e = tt
no_signature site r (some token) e = absurd (ground arith)

pub lightning_header-ok :
    (site : Site) (s t : Session) (o : Option Text)
    → lightning_header site s ≡ (ok o, t)
    → (t ≡ s) × PresentsX402 site s.request o
unfolding lightning_header
lightning_header-ok site s t o h =
    elim (if-ok (has_lightning_policy site)
      (read_signature s.request.payment_signature s.request.x_cashu) (pure none) s h) [
        | inl (e, k) ↦
            let r = read_signature-ok s.request.payment_signature s.request.x_cashu s t o k in
            (r.0, presents_signature site s.request o e r.1)
        | inr (e, k) ↦ (ground arith, no_signature site s.request o (ground arith))
      ]

-- The connection is encrypted, or comes from this machine.
abbrev pub IsPrivate : Connection → Type 0
IsPrivate c = (c.tls ≡ true) ⊎ ((ip : IpAddr) × (c.client ≡ some ip) × (is_loopback ip ≡ true))

is_exposed-IsPrivate : (c : Connection) → is_exposed c ≡ false → IsPrivate c
unfolding is_exposed
is_exposed-IsPrivate c h = elim (Bool-cases c.tls) [
  | inl e ↦ inl e
  | inr e ↦ elim (Option-cases c.client) [
    | inl f ↦ absurd (ground (arith, f, e, h))
    | inr (ip, f) ↦ inr (ip, f, ground (arith, e, f, h))
  ]
]

-- A lightning payment that was settled, over TLS or from this machine.
abbrev pub SettlesLightning : Connection → Answers → Option LightningError → Type 0
SettlesLightning c a settlement =
    IsPrivate c × (a.has_lightning ≡ true) × (a.binds ≡ true) × (settlement ≡ none)

settled-ok :
    (using_l402 : Bool) (receipt : Option String) (o : Option LightningError) (s t : Session)
    → settled using_l402 receipt o s ≡ (ok tt, t)
    → (o ≡ none) × (t.request ≡ s.request) × (t.permit ≡ s.permit)
unfolding lightning_refused
settled-ok b receipt none s t h =
    let e : t ≡ record s { receipt = receipt } =
      sym (ap (λ (p : Result Stop (Unit {0}) × Session). p.1) h) in
    (refl, ap (λ (u : Session). u.request) e, ap (λ (u : Session). u.permit) e)
settled-ok true receipt (some invalid_payment) s t h = absurd (ground arith)
settled-ok false receipt (some invalid_payment) s t h = absurd (ground arith)
settled-ok true receipt (some payments_unavailable) s t h = absurd (ground arith)
settled-ok false receipt (some payments_unavailable) s t h = absurd (ground arith)

abbrev pub settlement : Answers → Bool → Text → Option LightningError
settlement a true encoded = a.settles_l402 encoded
settlement a false encoded = a.settles_x402 encoded

-- The rest of the session that the payment stage keeps.
abbrev pub Kept : Session → Session → Type 0
Kept s t = (t.request ≡ s.request) × (t.permit ≡ s.permit)

settle-ok :
    (a : Answers) (using_l402 : Bool) (encoded : Text) (s t : Session)
    → (if using_l402
          then settled true none (a.settles_l402 encoded)
          else settled false (some a.x402_receipt) (a.settles_x402 encoded))
        s
      ≡ (ok tt, t)
    → (settlement a using_l402 encoded ≡ none) × (t.request ≡ s.request) × (t.permit ≡ s.permit)
settle-ok a true encoded s t h = settled-ok true none (a.settles_l402 encoded) s t h
settle-ok a false encoded s t h =
    settled-ok false (some a.x402_receipt) (a.settles_x402 encoded) s t h

pub pay_lightning-ok :
    (c : Connection) (a : Answers) (using_l402 : Bool) (encoded : Text) (s t : Session)
    → pay_lightning c a using_l402 encoded s ≡ (ok tt, t)
    → Kept s t × SettlesLightning c a (settlement a using_l402 encoded)
unfolding pay_lightning
pay_lightning-ok c a using_l402 encoded s t h =
    let (e1, k1) = guard-ok (is_exposed c) _ _ s h in
    let (e2, k2) = guard-ok (not a.has_lightning) _ _ s k1 in
    let (e3, k3) = guard-ok (not a.binds) _ _ s k2 in
    let r = settle-ok a using_l402 encoded s t k3 in
    ((r.1, r.2), (is_exposed-IsPrivate c e1, ground arith, ground arith, r.0))

-- A single Cashu token that was collected, over TLS or from this machine.
abbrev pub CollectsToken : Connection → Answers → Text → Type 0
CollectsToken c a encoded = IsPrivate c × (a.has_payments ≡ true) × (a.collects encoded ≡ none)

collected-ok :
    (o : Option PaymentError) (s t : Session) → collected o s ≡ (ok tt, t) → (o ≡ none) × (t ≡ s)
unfolding collected
collected-ok none s t h = ground arith
collected-ok (some PaymentError.invalid) s t h = absurd (ground arith)
collected-ok (some PaymentError.unavailable) s t h = absurd (ground arith)

collect_text-ok :
    (a : Answers) (value : Option Text) (s t : Session)
    → collect_text a value s ≡ (ok tt, t)
    → (t ≡ s)
      × (encoded : Text) × (value ≡ some encoded)
      × (a.has_payments ≡ true)
      × (a.collects encoded ≡ none)
collect_text-ok a none s t h = absurd (ground arith)
collect_text-ok a (some encoded) s t h =
    let (e, k) = guard-ok (not a.has_payments) _ (collected (a.collects encoded)) s h in
    let r = collected-ok (a.collects encoded) s t k in (r.1, encoded, refl, ground arith, r.0)

pub pay_cashu-ok :
    (c : Connection) (a : Answers) (value : Option Text) (rest : List (Option Text)) (s t : Session)
    → pay_cashu c a value rest s ≡ (ok tt, t)
    → (t ≡ s)
      × (encoded : Text) × ((value ∷ rest) ≡ (some encoded ∷ []))
      × CollectsToken c a encoded
unfolding pay_cashu
pay_cashu-ok c a value rest s t h =
    let (e1, k1) = guard-ok (present rest) _ _ s h in
    let (e2, k2) = guard-ok (is_exposed c) _ (collect_text a value) s k1 in
    let (same, encoded, e, e3, e4) = collect_text-ok a value s t k2 in
    (same, encoded, singleton value (some encoded) rest e e1, (is_exposed-IsPrivate c e2, e3, e4))

ask_payment-ok :
    (a : Answers) (site : Site) (retry : Option ℕ) (s t : Session)
    → ¬ (ask_payment a site retry s ≡ (ok tt, t))
unfolding ask_payment
ask_payment-ok a site retry s t h =
    let (e1, k1) = guard-ok (not (is_gated site)) _ _ s h in
    let (e2, k2) = guard-ok (not site.has_payment && not (is_some (required a site))) _ _ s k1 in
    ground arith

module _ (hash_one : IpAddr → ℕ) where
  -- The free allowance of the client has admitted the request.
  abbrev pub Allowed : Connection → Option RateLimiter → Type 0
  Allowed c free =
      (ip : IpAddr) × (limiter : RateLimiter) × (c.client ≡ some ip)
      × (free ≡ some limiter)
      × ((check_with_clock hash_one limiter ip c.now).1 ≡ ok tt)

  -- The site asks for nothing.
  abbrev pub IsOpen : Site → Option RateLimiter → Type 0
  IsOpen site free = (free ≡ none) × (is_gated site ≡ false)

  allowed-ok :
      (a : Answers) (site : Site) (p : RateLimiter × Result ℕ (Unit {0})) (s t : Session)
      → allowed hash_one a site p s ≡ (ok tt, t)
      → Kept s t × (p.1 ≡ ok tt)
  allowed-ok a site (limiter, ok _) s t h =
      let e : t ≡ record s { free = some limiter } =
        sym (ap (λ (p : Result Stop (Unit {0}) × Session). p.1) h) in
      ((ap (λ (u : Session). u.request) e, ap (λ (u : Session). u.permit) e), refl)
  allowed-ok a site (limiter, err wait) s t h = absurd (ask_payment-ok a site _ _ t h)

  use_allowance-ok :
      (c : Connection) (a : Answers) (site : Site) (ip : IpAddr) (free : Option RateLimiter)
      (s t : Session)
      → c.client ≡ some ip
      → use_allowance hash_one c a site ip free s ≡ (ok tt, t)
      → Kept s t × Allowed c free
  use_allowance-ok c a site ip none s t e h = absurd (ask_payment-ok a site none s t h)
  use_allowance-ok c a site ip (some limiter) s t e h =
      let r = allowed-ok a site (check_with_clock hash_one limiter ip c.now) s t h in
      (r.0, (ip, limiter, e, refl, r.1))

  pub free_request-ok :
      (c : Connection) (a : Answers) (site : Site) (s t : Session)
      → free_request hash_one c a site s ≡ (ok tt, t)
      → Kept s t × (Allowed c s.free ⊎ IsOpen site s.free)
  unfolding free_request
  free_request-ok c a site s t h =
      elim (if-ok (is_some s.free || is_gated site)
        (client_ip c >>= λ ip. use_allowance hash_one c a site ip s.free) (pure tt) s h) [
          | inl (e, k) ↦
              let (ip, s1, h1, k1) =
                continue-ok (λ ip. use_allowance hash_one c a site ip s.free) (client_ip c s) k in
              let first = client_ip-ok c s s1 ip h1 in
              let r = use_allowance-ok c a site ip s.free s1 t first.0 k1 in
              (ground (arith, first, r), inl r.1)
          | inr (e, k) ↦ (ground arith, inr (ground arith))
        ]

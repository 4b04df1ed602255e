-- ===== src/Proxy/Payment.antt =====
-- crates/geata/src/proxy.rs: the stages of `request_filter` that read a payment, settle it, or ask for one.
use geata.Common.{
  ℕ, ◌+◌, ◌/◌, ◌%◌, String, Bool, true, false, ◌&&◌, ◌||◌, not, Option, none, some, List, [], ◌∷◌,
  ◌++◌, Result, ok, err, nat_eq, leb, length, if◌then◌else◌, is_some,
}
use geata.Common.Exec.{pure, modify, ◌>>=◌}
use geata.Common.Text.{Text, text, text_eq, to_ascii_lowercase, split_once}
use geata.Net.{is_loopback, IpAddr}
use geata.RateLimit.{RateLimiter, check_with_clock}
use geata.Payments.Monad.{PaymentError}
use geata.Proxy.Data.{
  Site, Challenge, LightningError, invalid_payment, payments_unavailable, Header, no_store,
  retry_after, www_authenticate, cashu_challenge, payment_required, Answers, Connection, Filter,
}
use geata.Proxy.Guards.{
  max_payment_header, reply, present, has_l402, lacks_x402, has_lightning_policy, client_ip,
}

abbrev is_credential : Text × Text → Bool
is_credential (scheme, credential) =
    text_eq (to_ascii_lowercase scheme) (text "l402")
    && (present credential && leb (length credential) max_payment_header)

abbrev pub checked : Option (Text × Text) → Option Text
checked none = none
checked (some parts) = if is_credential parts then some parts.1 else none

-- The credential of one `Authorization` value.
unfoldable pub credential : Option Text → Option Text
credential none = none
credential (some value) = checked (split_once b' ' value)

abbrev unauthorized : {A : Type 0} → Filter A
unauthorized =
    reply 401 "This site requires an L402 Authorization credential.\n"
      (no_store ∷ www_authenticate "L402" ∷ [])

abbrev pub accept_credential : Option Text → List (Option Text) → Filter (Option Text)
accept_credential (some token) [] = pure (some token)
accept_credential (some token) (_ ∷ _) = unauthorized
accept_credential none rest = unauthorized

abbrev pub read_credential : List (Option Text) → Filter (Option Text)
read_credential [] = pure none
read_credential (value ∷ rest) = accept_credential (credential value) rest

unfoldable pub l402_header : Site → Filter (Option Text)
l402_header site s =
    (if has_l402 site then read_credential s.request.authorization else pure none) s

unfoldable pub check_method : Site → Option Text → Filter (Unit {0})
check_method site l402 s =
    (if is_some l402 && (present s.request.payment_signature || present s.request.x_cashu)
        then reply 400 "Select exactly one payment method.\n" []
        else if lacks_x402 site && present s.request.payment_signature
        then reply 400 "Lightning x402 is disabled.\n" []
        else pure tt)
      s

abbrev pub accept_signature : Option Text → Filter (Option Text)
accept_signature none = reply 400 "Invalid Lightning payment header.\n" []
accept_signature (some value) =
    if leb (length value) max_payment_header
    then pure (some value)
    else reply 400 "Invalid Lightning payment header.\n" []

abbrev pub read_signature : List (Option Text) → List (Option Text) → Filter (Option Text)
read_signature [] cashu = pure none
read_signature (value ∷ rest) cashu =
    if present rest || present cashu
    then reply 400 "Select exactly one payment method.\n" []
    else accept_signature value

unfoldable pub lightning_header : Site → Filter (Option Text)
lightning_header site s =
    (if has_lightning_policy site
        then read_signature s.request.payment_signature s.request.x_cashu
        else pure none)
      s

abbrev local : Option IpAddr → Bool
local none = false
local (some ip) = is_loopback ip

-- Payments are taken over TLS, or from the machine itself.
unfoldable pub is_exposed : Connection → Bool
is_exposed c = not c.tls && not (local c.client)

-- A lightning error as a response.
unfoldable pub lightning_refused : {A : Type 0} → Bool → LightningError → Filter A
lightning_refused true invalid_payment =
    reply 401 "Invalid, expired, or already used Lightning payment.\n"
      (no_store ∷ www_authenticate "L402" ∷ [])
lightning_refused false invalid_payment =
    reply 400 "Invalid, expired, or already used Lightning payment.\n" (no_store ∷ [])
lightning_refused _ payments_unavailable =
    reply 503 "Lightning payments temporarily unavailable.\n" (no_store ∷ [])

abbrev pub settled : Bool → Option String → Option LightningError → Filter (Unit {0})
settled using_l402 receipt none = modify (λ s. record s { receipt = receipt })
settled using_l402 receipt (some e) = lightning_refused using_l402 e

-- A lightning payment; `using_l402` tells which of the two protocols.
unfoldable pub pay_lightning : Connection → Answers → Bool → Text → Filter (Unit {0})
unfolding lightning_refused
pay_lightning c a using_l402 encoded =
    if is_exposed c
    then reply 400 "Use HTTPS to send payments.\n" []
    else if not a.has_lightning
    then reply 503 "Lightning unavailable.\n" []
    else if not a.binds
    then reply 400 "Unsupported Lightning request binding or body size.\n" []
    else if using_l402
    then settled true none (a.settles_l402 encoded)
    else settled false (some a.x402_receipt) (a.settles_x402 encoded)

unfoldable pub collected : Option PaymentError → Filter (Unit {0})
collected none = pure tt
collected (some PaymentError.invalid) =
    reply 400 "Invalid, insufficient, or already used Cashu payment.\n" (no_store ∷ [])
collected (some PaymentError.unavailable) =
    reply 503 "Payments temporarily unavailable; retry the same token.\n"
      (retry_after 1 ∷ no_store ∷ [])

abbrev pub collect_text : Answers → Option Text → Filter (Unit {0})
collect_text a none = reply 400 "Invalid Cashu token.\n" []
collect_text a (some encoded) =
    if not a.has_payments
    then reply 503 "Payments are unavailable.\n" []
    else collected (a.collects encoded)

-- A Cashu token, the first of the values and the others.
unfoldable pub pay_cashu :
    Connection → Answers → Option Text → List (Option Text) → Filter (Unit {0})
unfolding collected
pay_cashu c a value rest =
    if present rest
    then reply 400 "Provide exactly one X-Cashu token.\n" []
    else if is_exposed c
    then reply 400 "Use HTTPS to send payment tokens.\n" []
    else collect_text a value

abbrev pub is_gated : Site → Bool
is_gated site = site.has_payment || has_lightning_policy site

-- The lightning challenge, where the request can be bound to one.
unfoldable pub required : Answers → Site → Option Challenge
required a site =
    if has_lightning_policy site && (a.has_lightning && a.binds) then a.challenge else none

abbrev with_header : {A : Type 0} → (A → Header) → Option A → List Header
with_header name none = []
with_header name (some value) = name value ∷ []

abbrev lightning_headers : Option Challenge → List Header
lightning_headers none = []
lightning_headers (some r) =
    with_header payment_required r.x402_challenge ++ with_header www_authenticate r.l402_challenge

-- `Retry-After` for the free allowance, a second at least.
unfoldable pub free_wait : ℕ → ℕ
free_wait wait =
    let s = wait / 1_000_000_000 + (if nat_eq (wait % 1_000_000_000) 0 then 0 else 1) in
    if leb 1 s then s else 1

-- `retry` is there if the site has a free allowance, and it is used up.
unfoldable pub ask_payment : Answers → Site → Option ℕ → Filter (Unit {0})
unfolding required
ask_payment a site retry =
    if not (is_gated site)
    then reply 429 "Too many requests.\n"
        (retry_after (elim retry [ none ↦ 1 | some n ↦ n ]) ∷ no_store ∷ [])
    else if not site.has_payment && not (is_some (required a site))
    then reply 503 "Lightning challenge unavailable.\n" (retry_after 1 ∷ no_store ∷ [])
    else reply 402
        (if is_some retry
          then "Payment required, or wait for the free allowance.\n"
          else "Payment required.\n")
        (no_store
          ∷ (with_header retry_after retry
              ++ ((if site.has_payment then cashu_challenge ∷ [] else [])
                  ++ lightning_headers (required a site))))

module _ (hash_one : IpAddr → ℕ) where
  abbrev pub allowed : Answers → Site → RateLimiter × Result ℕ (Unit {0}) → Filter (Unit {0})
  allowed a site (limiter, ok _) s = (ok tt, record s { free = some limiter })
  allowed a site (limiter, err wait) s =
      ask_payment a site (some (free_wait wait)) (record s { free = some limiter })

  abbrev pub use_allowance :
      Connection → Answers → Site → IpAddr → Option RateLimiter → Filter (Unit {0})
  use_allowance c a site ip none = ask_payment a site none
  use_allowance c a site ip (some limiter) =
      allowed a site (check_with_clock hash_one limiter ip c.now)

  -- A request without a payment.
  unfoldable pub free_request : Connection → Answers → Site → Filter (Unit {0})
  unfolding ask_payment free_wait
  free_request c a site s =
      (if is_some s.free || is_gated site
          then (client_ip c >>= λ ip. use_allowance c a site ip s.free)
          else pure tt)
        s

  -- The Cashu token counts only where the site takes Cashu.
  unfoldable pub pay_without_lightning :
      Connection → Answers → Site → List (Option Text) → Filter (Unit {0})
  unfolding pay_cashu free_request
  pay_without_lightning c a site [] = free_request c a site
  pay_without_lightning c a site (value ∷ rest) =
      if site.has_payment then pay_cashu c a value rest else free_request c a site

  -- What pays for the request: `l402`, or else `lightning`, or else a token, or else the allowance.
  unfoldable pub pay : Connection → Answers → Site → Option Text → Option Text → Filter (Unit {0})
  unfolding pay_lightning pay_without_lightning
  pay c a site (some encoded) lightning s = pay_lightning c a true encoded s
  pay c a site none (some encoded) s = pay_lightning c a false encoded s
  pay c a site none none s = pay_without_lightning c a site s.request.x_cashu s

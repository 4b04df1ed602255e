-- ===== src/Proxy/Filter.antt =====
-- crates/geata/src/proxy.rs: `request_filter` as a whole.
use geata.Common.{ℕ, String, Option, none, some, List, [], ◌∷◌, ok, nat_eq, if◌then◌else◌, any}
use geata.Common.Exec.{pure, ◌>>=◌, ◌>>◌}
use geata.Common.Map.{Map, get}
use geata.Common.Text.{Text, text_Key, to_ascii_lowercase, trim_end, trim_brackets}
use geata.Net.{IpAddr}
use geata.Proxy.Data.{
  Request, Handler, proxy, respond, Site, Header, no_store, payment_response, Outcome, forwarded,
  served, Answers, Connection, Filter,
}
use geata.Proxy.Guards.{reply, has_l402, check_scheme, check_length, limit_attempts, take_capacity}
use geata.Proxy.Payment.{l402_header, check_method, lightning_header, pay, is_gated}

-- The host of an authority, as the key of a site.
unfoldable pub host_domain : Text → Text
unfolding trim_brackets trim_end to_ascii_lowercase
host_domain host = to_ascii_lowercase (trim_end (λ c. nat_eq c b'.') (trim_brackets host))

abbrev domain_of : Option (Text × Text) → Option Text
domain_of none = none
domain_of (some (whole, host)) =
    if any (λ c. nat_eq c b'@') whole then none else some (host_domain host)

unfoldable pub request_domain : (Text → Option (Text × Text)) → Text → Option Text
unfolding host_domain
request_domain parse authority = domain_of (parse authority)

-- The `Host` header where it is text, or else the authority of the URI.
unfoldable pub authority_of : Request → Option Text
authority_of request = elim request.host [ some h ↦ some h | none ↦ request.uri_authority ]

abbrev pub domain_for : Answers → Option Text → Option Text
domain_for a none = none
domain_for a (some authority) = request_domain a.authority authority

abbrev pub site_for : {A : Type 0} → Option A → Filter A
site_for none = reply 404 "No site is configured for this hostname.\n" []
site_for (some site) = pure site

abbrev pub domain_or : Option Text → Filter Text
domain_or none = reply 400 "A valid Host header is required.\n" []
domain_or (some domain) = pure domain

unfoldable pub find_domain : Answers → Filter Text
unfolding authority_of request_domain
find_domain a s = domain_or (domain_for a (authority_of s.request)) s

-- No credential for the filter is passed on to a backend.
unfoldable pub strip_credentials : Site → Request → Request
strip_credentials site request =
    let r = if has_l402 site then record request { authorization = [] } else request in
    if is_gated site then record r { x_cashu = []; payment_signature = [] } else r

abbrev receipt_header : Option String → List Header
receipt_header none = []
receipt_header (some receipt) = payment_response receipt ∷ []

abbrev pub deliver : Site → Handler → Option String → Outcome
deliver site proxy receipt = forwarded
deliver site (respond body status) receipt = served (record {
  status = status;
  body = body;
  headers = if is_gated site then no_store ∷ receipt_header receipt else receipt_header receipt;
})

-- What stands behind every check: the headers are stripped, and a static site responds.
unfoldable pub handle : Site → Filter Outcome
unfolding strip_credentials
handle site s = (
  ok (deliver site site.handler s.receipt),
  record s { request = strip_credentials site s.request },
)

module _ (hash_one : IpAddr → ℕ) where
  -- The checks for a site, in their order.
  unfoldable pub authorize : Connection → Answers → Site → Text → Filter (Unit {0})
  authorize c a site domain = do
    check_scheme hash_one c a site domain
    check_length site
    limit_attempts hash_one c site
    take_capacity c
    l402 ← l402_header site
    check_method site l402
    lightning ← lightning_header site
    pay hash_one c a site l402 lightning

  -- The refusals are errors here; the source returns `Ok(false)` for `forwarded`, else `Ok(true)`.
  unfoldable pub request_filter : Connection → Answers → Map Text Site → Filter Outcome
  unfolding find_domain authorize handle get
  request_filter c a sites = do
    domain ← find_domain a
    site ← site_for (get domain sites)
    authorize c a site domain
    handle site

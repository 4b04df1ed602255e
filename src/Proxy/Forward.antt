-- ===== src/Proxy/Forward.antt =====
-- crates/geata/src/proxy.rs: what happens to a request that goes on to the backend, after `request_filter`.
use geata.Common.{
  ◌≡◌, ◌≤◌, ◌<◌, arith, refl, ap, ◌∙◌, ℕ, ◌+◌, String, Bool, false, ◌||◌, Option, none, some, List,
  [], ◌∷◌, Result, ok, err, ltb, leb, nat_eq, if◌then◌else◌, saturating_add, u64_max, string_Key,
}
use geata.Common.Map.{Map, insert, remove}
use geata.Proxy.Data.{Site}
use geata.Proxy.Guards.{has_l402}
use geata.Proxy.Payment.{is_gated}

-- The names of headers are in lower case; a name has its values.
abbrev pub Headers : Type 0
Headers = Map String (List String)

pub record Upstream : Type 0 where
  pub tls : Bool
  pub authority : String

-- `RequestContext`, as far as these filters use it; `site` is none if the filter found none.
pub record Context : Type 0 where
  pub site : Option Site
  pub upstream : Option Upstream
  pub host : String
  pub receipt : Option String
  pub body_bytes : ℕ
  pub address_index : ℕ
  pub addresses : ℕ

pub data BodyError : Type 0 where
  body_too_large : BodyError

abbrev pub body_limit : Option Site → Option ℕ
body_limit none = none
body_limit (some site) = site.max_body_bytes

abbrev is_over : Option ℕ → ℕ → Bool
is_over none n = false
is_over (some most) n = ltb most n

-- A chunk of the body; frames of an upgraded connection are none.
unfoldable pub request_body_filter :
    Bool → Option ℕ → Context → Result BodyError (Unit {0}) × Context
request_body_filter upgraded chunk ctx =
    if upgraded
    then (ok tt, ctx)
    else (let bytes =
          saturating_add u64_max ctx.body_bytes (elim chunk [ none ↦ 0 | some n ↦ n ]) in
        (
          if is_over (body_limit ctx.site) bytes then err body_too_large else ok tt,
          record ctx { body_bytes = bytes },
        ))

-- Whether another address may be tried.
unfoldable pub fail_to_connect : Context → Bool × Context
fail_to_connect ctx =
    let next = ctx.address_index + 1 in
    (ltb next ctx.addresses, record ctx { address_index = next })

abbrev pub remove_all : List String → Headers → Headers
remove_all [] h = h
remove_all (name ∷ names) h = remove_all names (remove name h)

abbrev credentials : Option Site → List String
credentials none = []
credentials (some site) = if is_gated site then "x-cashu" ∷ "payment-signature" ∷ [] else []

abbrev l402_credentials : Option Site → List String
l402_credentials none = []
l402_credentials (some site) = if has_l402 site then "authorization" ∷ [] else []

abbrev pub forwarding : List String
forwarding =
    "forwarded" ∷ "x-forwarded-for" ∷ "x-forwarded-host" ∷ "x-forwarded-proto" ∷ "x-forwarded-port"
    ∷ "x-real-ip" ∷ []

abbrev insert_client : Option String → Headers → Headers
insert_client none h = h
insert_client (some ip) h = insert "x-real-ip" (ip ∷ []) (insert "x-forwarded-for" (ip ∷ []) h)

abbrev insert_host : Option Upstream → String → Headers → Headers
insert_host none host h = h
insert_host (some upstream) host h =
    insert "host" ((if upstream.tls then upstream.authority else host) ∷ []) h

-- The request that the backend sees; `client` is the client's address as text.
unfoldable pub upstream_request_filter : Bool → Option String → Context → Headers → Headers
unfolding insert remove
upstream_request_filter tls client ctx h =
    let h1 = remove_all (credentials ctx.site) h in
    let h2 = remove_all (l402_credentials ctx.site) h1 in
    let h3 = remove_all forwarding h2 in
    let h4 = insert_client client h3 in
    let h5 = insert "x-forwarded-proto" ((if tls then "https" else "http") ∷ []) h4 in
    let h6 = insert "x-forwarded-host" (ctx.host ∷ []) h5 in insert_host ctx.upstream ctx.host h6

abbrev is_paid_site : Option Site → Bool
is_paid_site none = false
is_paid_site (some site) = is_gated site

abbrev insert_receipt : Option String → Headers → Headers
insert_receipt none h = h
insert_receipt (some receipt) h = insert "payment-response" (receipt ∷ []) h

unfoldable pub response_filter : Context → Headers → Headers
unfolding insert remove
response_filter ctx h =
    if is_paid_site ctx.site
    then insert_receipt ctx.receipt
        (remove "payment-response" (insert "cache-control" ("no-store" ∷ []) h))
    else h

-- Which finished requests are counted, and by which status; the others are logged.
unfoldable pub logging : Option ℕ → Bool → Option ℕ
logging status failed =
    let s : ℕ = elim status [ none ↦ 0 | some n ↦ n ] in
    if leb 400 s || (nat_eq s 308 || (nat_eq s 0 || failed)) then some s else none

-- The chunks of a body, until the filter fails.
unfoldable pub receive : List (Option ℕ) → Context → Result BodyError (Unit {0}) × Context
receive [] ctx = (ok tt, ctx)
receive (chunk ∷ chunks) ctx =
    let (result, next) = request_body_filter false chunk ctx in
    let rest = receive chunks next in elim result [ err e ↦ (err e, next) | ok _ ↦ rest ]

abbrev size : Option ℕ → ℕ
size none = 0
size (some n) = n

abbrev pub total : List (Option ℕ) → ℕ
total [] = 0
total (chunk ∷ chunks) = size chunk + total chunks

filter-bounded :
    (most : ℕ) (chunk : Option ℕ) (ctx : Context)
    → body_limit ctx.site ≡ some most
    → most < u64_max
    → (request_body_filter false chunk ctx).0 ≡ ok tt
    → (ctx.body_bytes + size chunk ≤ most)
      × ((request_body_filter false chunk ctx).1.body_bytes ≡ ctx.body_bytes + size chunk)
      × ((request_body_filter false chunk ctx).1.site ≡ ctx.site)
unfolding request_body_filter
filter-bounded most none ctx e lt h = ground (arith, e, h)
filter-bounded most (some n) ctx e lt h = ground (arith, e, h)

receive-step :
    (r : Result BodyError (Unit {0})) (next : Context)
    (rest : Result BodyError (Unit {0}) × Context)
    → (let q : Result BodyError (Unit {0}) × Context = elim r [
      | err e ↦ (err e, next)
      | ok _ ↦ rest
    ] in
        q.0 ≡ ok tt)
    → (r ≡ ok tt) × (rest.0 ≡ ok tt)
receive-step (ok _) next rest h = (refl, h)
receive-step (err e) next rest h = absurd (ground arith)

-- On a site with a limit below 2^64 - 1, a body whose chunks the filter all lets through is within the
-- limit, together with what was counted before.
pub receive-bounded :
    (most : ℕ) (chunks : List (Option ℕ)) (ctx : Context)
    → body_limit ctx.site ≡ some most
    → most < u64_max
    → ctx.body_bytes ≤ most
    → (receive chunks ctx).0 ≡ ok tt
    → ctx.body_bytes + total chunks ≤ most
unfolding receive
receive-bounded most [] ctx e lt le h = omega (arith, le)
receive-bounded most (chunk ∷ chunks) ctx e lt le h =
    let r = request_body_filter false chunk ctx in
    let (passed, rest) = receive-step r.0 r.1 (receive chunks r.1) h in
    let (fits, counted, same) = filter-bounded most chunk ctx e lt passed in
    let tail : r.1.body_bytes + total chunks ≤ most =
      receive-bounded most chunks r.1 (ap body_limit same ∙ e) lt (omega (arith, fits, counted))
        rest in
    omega (arith, tail, counted)

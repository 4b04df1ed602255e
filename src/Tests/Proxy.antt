-- ===== src/Tests/Proxy.antt =====
-- Tests of the way of a request through the proxy.
use geata.Common.{◌≤◌, ℕ, ◌+◌, ◌≡◌, refl, none, some, true, false, [], ◌∷◌, ok, List, arith}
use geata.Common.Map.{Map, get}
use geata.Common.Text.{Text, text, text_Key, text_eq}
use geata.Net.{v4}
use geata.RateLimit.{RateLimiter, with_prefix, check_with_clock, refilled}
use geata.Proxy.Data.{Request, proxy, Site, Session, Answers, Connection, forwarded}
use geata.Proxy.Guards.{check_scheme, check_length, limit_attempts, take_capacity}
use geata.Proxy.Payment.{
  l402_header, check_method, lightning_header, pay, is_exposed, pay_cashu, pay_without_lightning,
  collected,
}
use geata.Proxy.Filter.{request_filter, find_domain}
use geata.Proxy.Steps.{HoldsPermit}
use geata.Proxy.Forward.{Context, request_body_filter, receive, total, receive-bounded}
use geata.Proxy.Rejections.{RejectionLogs, new_logs, record_all, sum, record_all-counts}
use geata.Proxy.Access.{IsStripped, request_filter-Entitled, IsEntitled}

abbrev request : Request
request = record {
  host = some (text "EXAMPLE.org.");
  uri_authority = none;
  path = text "/";
  path_and_query = some (text "/");
  is_get = true;
  content_length = none;
  x_cashu = some (text "cashuBxyz") ∷ [];
  payment_signature = [];
  authorization = [];
}

abbrev quiet : RateLimiter
quiet = with_prefix (record { per_second = 10; burst = 2 }) 64 0

abbrev session : Session
session = record {
  request = request;
  redirects = quiet;
  verification = quiet;
  free = none;
  capacity = none;
  permit = none;
  receipt = none;
}

abbrev paid_site : Site
paid_site = record {
  https = true;
  handler = proxy;
  has_payment = true;
  lightning = none;
  max_body_bytes = none;
}

abbrev connection : Connection
connection = record { client = some (v4 0x0a000001); tls = true; https_port = 443; now = 0 }

abbrev answers : Answers
answers = record {
  acme = λ _ _. none;
  has_lightning = false;
  has_payments = true;
  authority = λ host. some (host, host);
  binds = false;
  settles_x402 = λ _. none;
  x402_receipt = "";
  settles_l402 = λ _. none;
  collects = λ _. none;
  challenge = none;
}

abbrev sites : Map Text Site
sites = (text "example.org", paid_site) ∷ []

abbrev run : Session
run = (request_filter (λ _. 0) connection answers sites session).1

request_filter-Entitled_example :
    (domain : Text) × (site : Site) × ((find_domain answers session).0 ≡ ok domain)
    × (get domain sites ≡ some site)
    × (site.https ≡ true)
    × IsStripped site request run.request
    × HoldsPermit connection none run.permit
    × IsEntitled (λ _. 0) connection answers site request none
unfolding request_filter text_eq check_scheme check_length limit_attempts check_with_clock
    with_prefix refilled take_capacity l402_header check_method lightning_header pay is_exposed
    pay_cashu pay_without_lightning collected find_domain
request_filter-Entitled_example =
    request_filter-Entitled (λ _. 0) connection answers sites session run forwarded refl

abbrev logs : RejectionLogs
logs = new_logs 0

-- A limited client, a failed connection, and an unknown host after the summary is due.
abbrev rejections : List (ℕ × ℕ)
rejections = (429, 5) ∷ (0, 1_000_000_000) ∷ (404, 10_000_000_000) ∷ (429, 10_000_000_001) ∷ []

record_all-counts_example :
    (record_all rejections logs).0 + sum (record_all rejections logs).1.counts ≡ 4
unfolding new_logs
record_all-counts_example = record_all-counts rejections logs refl (omega arith)

-- 10 bytes were counted, and 20 are allowed.
abbrev uploading : Context
uploading = record {
  site = some (record paid_site { max_body_bytes = some 20 });
  upstream = none;
  host = "example.org";
  receipt = none;
  body_bytes = 10;
  address_index = 0;
  addresses = 1;
}

receive-bounded_example : 10 + total (some 4 ∷ none ∷ some 6 ∷ []) ≤ 20
unfolding receive request_body_filter
receive-bounded_example =
    receive-bounded 20 (some 4 ∷ none ∷ some 6 ∷ []) uploading refl (omega arith) (omega arith) refl

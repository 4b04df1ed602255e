-- ===== src/Cooldown.antt =====
-- crates/geata/src/acme_http.rs: the pause that a certificate authority asks for with `Retry-After`. The parser of
-- HTTP dates, the answers of the authority and the clock are arguments; times are seconds since 1970.
pub mod Paused
use geata.Common.{
  ℕ, ◌+◌, Bool, true, false, ◌&&◌, ◌||◌, Option, none, some, if◌then◌else◌, leb, nat_eq, min, max,
  saturating_add, i64_max, u64_max, unwrap_or,
}
use geata.Common.Digits.{parse_uint}
use geata.Common.Text.{Text, trim_start, trim_end}
use geata.Config.Tokenizer.{is_whitespace}

-- `Cooldown`: the deadline in memory, and the one on disk.
pub record Cooldown : Type 0 where
  pub until : ℕ
  pub stored : Option ℕ

-- `Cooldown::load`, where the file can be read.
unfoldable pub load : Option ℕ → Cooldown
load stored = record { until = unwrap_or stored 0; stored = stored }

unfoldable pub ready : Cooldown → ℕ → Bool
ready c now = leb c.until now

-- `Cooldown::defer`; a write that fails leaves the file as it was.
unfoldable pub defer : Bool → ℕ → Cooldown → Cooldown
defer written deadline c =
    let until = max c.until deadline in
    record { until = until; stored = if written then some until else c.stored }

-- A response: its status and its `Retry-After` header, where that is text.
pub record Response : Type 0 where
  pub status : ℕ
  pub retry_after : Option Text

abbrev is_error : ℕ → Bool
is_error status = leb 400 status && leb status 599

unfoldable pub trim : Text → Text
unfolding trim_start trim_end is_whitespace
trim s = trim_end is_whitespace (trim_start is_whitespace s)

module _ (parse_http_date : Text → Option ℕ) where
  abbrev relative_or_date : ℕ → Option ℕ → Option ℕ → Option ℕ
  relative_or_date now (some seconds) date = some (saturating_add i64_max now (min seconds i64_max))
  relative_or_date now none none = none
  relative_or_date now none (some seconds) = some (min seconds i64_max)

  abbrev asked : ℕ → Option Text → Option ℕ
  asked now none = none
  asked now (some value) =
      relative_or_date now (parse_uint u64_max (trim value)) (parse_http_date (trim value))

  abbrev pub deadline_of : ℕ → ℕ → Option ℕ → Option ℕ
  deadline_of status now (some deadline) = some (max deadline (saturating_add i64_max now 1))
  deadline_of status now none =
      if nat_eq status 429 then some (saturating_add i64_max now 60) else none

  -- `retry_deadline`; an HTTP date before 1970 is none to the parser here.
  unfoldable pub retry_deadline : Response → ℕ → Option ℕ
  unfolding parse_uint trim
  retry_deadline response now =
      if is_error response.status
      then deadline_of response.status now (asked now response.retry_after)
      else none

  abbrev pub deferred : Bool → Option ℕ → Cooldown → Cooldown
  deferred written none c = c
  deferred written (some deadline) c = defer written deadline c

  abbrev pub answered : Bool → ℕ → Option Response → Cooldown → Cooldown
  answered written now none c = c
  answered written now (some response) c =
      deferred written (retry_deadline response (saturating_add i64_max now 1)) c

  -- `AcmeHttp::request`: whether it is sent, and the cooldown behind it; a response is none where the
  -- request fails or times out.
  unfoldable pub request : Bool → ℕ → Option Response → Cooldown → Bool × Cooldown
  unfolding ready retry_deadline defer
  request written now response c =
      if ready c now then (true, answered written now response c) else (false, c)

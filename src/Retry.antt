-- ===== src/Retry.antt =====
-- crates/geata/src/retry.rs: when a certificate request may be tried again. Times are Unix seconds
-- of `certificates::now`, which is never negative, as numbers up to `i64::MAX`. An expiry before the
-- epoch gives the same `cap` as one at the epoch, so expiries are numbers too.
pub mod Bounds
use geata.Common.{
  ℕ, ◌+◌, ◌-◌, ◌*◌, ◌/◌, ◌%◌, ◌^◌, min, max, Bool, Option, none, some, leb, saturating_add, u32_max,
  i64_max, clamp,
}

pub record Retry : Type 0 where
  pub failures : ℕ  -- u32
  pub next : ℕ  -- i64

-- `Default`
unfoldable pub never_failed : Retry
never_failed = record { failures = 0; next = 0 }

unfoldable pub ready : Retry → ℕ → Bool
ready r now = leb r.next now

-- 30 s doubled for each failure after the first, twelve times at most, and capped at a day.
unfoldable pub base : Retry → ℕ
base r = min (30 * 2 ^ min (r.failures - 1) 12) 86400

unfoldable pub cap : ℕ → Option ℕ → ℕ
cap now none = 86400
cap now (some end) = clamp 5 86400 ((end - now) / 3)

-- `Retry::failed`; `random` is the `u16` from OpenSSL.
unfoldable pub failed : ℕ → Retry → ℕ → Option ℕ → Retry
unfolding base cap
failed random r now expiry =
    let jitter = random % (base r / 5 + 1) in
    record r { next = saturating_add i64_max now (min (base r + jitter) (cap now expiry)) }

-- `Retry::begin`: an attempt is counted before the CA is contacted.
unfoldable pub begin : ℕ → Retry → ℕ → Option ℕ → ℕ → Retry
begin random r now expiry timeout =
    let r' =
      failed random (record r { failures = saturating_add u32_max r.failures 1 }) now expiry in
    record r' { next = max r'.next (saturating_add i64_max now timeout) }

-- ===== src/Retry/Bounds.antt =====
-- Bounds on the waits of crates/geata/src/retry.rs.
use native.Mathlib.Nat.{one-le-pow, pow-suc, pow-le-pow_right}
use native.Mathlib.Decide.{dec_lt}
use geata.Common.{
  ℕ, zero, suc, ◌+◌, ◌-◌, ◌*◌, ◌/◌, ◌^◌, ◌≤◌, ◌<◌, ◌≡◌, refl, ◌⊎◌, inl, inr, true, false, arith,
  min, Option, none, some, i64_max, u32_max, saturating_add,
}
use geata.Retry.{Retry, ready, base, cap, failed, begin}

doubling_bound : (k : ℕ) → 1 ≤ 2 ^ k
doubling_bound k = one-le-pow k 2 (omega arith)

base_bounds : (r : Retry) → (30 ≤ base r) × (base r ≤ 86400)
unfolding base
base_bounds r = omega (arith, doubling_bound (min (r.failures - 1) 12))

cap_bounds : (now : ℕ) (expiry : Option ℕ) → (5 ≤ cap now expiry) × (cap now expiry ≤ 86400)
unfolding cap
cap_bounds now none = omega arith
cap_bounds now (some end) = omega arith

-- A failure defers the next attempt by 5 seconds to a day, whatever the expiry, the count of
-- failures and the random number are, as long as the clock is a day below its end.
pub failed_delay :
    (random : ℕ) (r : Retry) (now : ℕ) (expiry : Option ℕ)
    → now + 86400 ≤ i64_max
    → let r' = failed random r now expiry in
      (now + 5 ≤ r'.next) × (r'.next ≤ now + 86400) × (r'.failures ≡ r.failures)
unfolding failed
failed_delay random r now expiry h = omega (arith, base_bounds r, cap_bounds now expiry)

-- With no expiry the delay is 30 seconds, doubled for each failure after the first, twelve times at most, and
-- capped at a day, with at most a fifth more, and never more than a day, as long as the clock is a day
-- below its end.
pub failed_backoff :
    (random : ℕ) (r : Retry) (now : ℕ)
    → now + 86400 ≤ i64_max
    → let delay = (failed random r now none).next - now in
      let wait = min (30 * 2 ^ min (r.failures - 1) 12) 86400 in
      (wait ≤ delay) × (delay ≤ wait + wait / 5) × (delay ≤ 86400)
unfolding failed cap base
failed_backoff random r now h = omega (arith, base_bounds r)

-- One more failure raises the exponent by one, or leaves it at 0 or at 12.
exponents :
    (f : ℕ)
    → let e = min (f - 1) 12 in
      let e' = min (f + 1 - 1) 12 in
      ((e' ≡ e) × ((f ≡ 0) ⊎ (12 < f))) ⊎ ((e' ≡ suc e) × (e < 12) × (1 ≤ f))
exponents zero = inl (omega arith, inl refl)
exponents (suc f) = elim (dec_lt f 12) [
  | yes below ↦ inr (omega arith, omega arith, omega arith)
  | no above ↦ inl (omega arith, inr (omega arith))
]

doublings : (e : ℕ) → e ≤ 10 → 2 ^ e ≤ 1024
doublings e h = pow-le-pow_right (omega arith) h

-- One more failure never shortens the base wait, and doubles it until a cap is met.
pub base_grows :
    (r : Retry)
    → let more = record r { failures = r.failures + 1 } in
      (base r ≤ base more)
      × (base more ≤ 2 * base r)
      × (1 ≤ r.failures → r.failures ≤ 11 → base more ≡ 2 * base r)
unfolding base
base_grows r =
    let e = min (r.failures - 1) 12 in
    let e' = min (r.failures + 1 - 1) 12 in
    elim (exponents r.failures) [
      | inl same ↦ rw same.0 (ground arith)
      | inr more ↦ rw more.0 (omega (arith, pow-suc 2 e, doublings e))
    ]

-- After `begin` no attempt is ready before `timeout` seconds are over, the attempt is counted, and
-- without a longer timeout the wait is at most a day: a crash does not cause an immediate retry. The
-- clock is a day below its end, and the count below its own.
pub begin_lem :
    (random : ℕ) (r : Retry) (now : ℕ) (expiry : Option ℕ) (timeout later : ℕ)
    → now + 86400 ≤ i64_max
    → timeout ≤ 86400
    → r.failures < u32_max
    → let r' = begin random r now expiry timeout in
      (later < now + timeout → ready r' later ≡ false)
      × (now + 86400 ≤ later → ready r' later ≡ true)
      × (r'.failures ≡ r.failures + 1)
unfolding begin ready
begin_lem random r now expiry timeout later h t f =
    let counted = record r { failures = saturating_add u32_max r.failures 1 } in
    ground (arith, failed_delay random counted now expiry)

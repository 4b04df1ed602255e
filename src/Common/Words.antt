-- ===== src/Common/Words.antt =====
-- Saturating arithmetic on machine integers that the source never makes negative.
use Prim.Native.Nat.{ℕ, ◌+◌, ◌-◌, ◌^◌, min, max}

abbrev pub u32_max : ℕ
u32_max = 2 ^ 32 - 1

abbrev pub u64_max : ℕ
u64_max = 2 ^ 64 - 1

abbrev pub i64_max : ℕ
i64_max = 2 ^ 63 - 1

-- `a.saturating_add(b)` for a type whose greatest value is `top`.
abbrev pub saturating_add : ℕ → ℕ → ℕ → ℕ
saturating_add top a b = min (a + b) top

-- `x.clamp(lo, hi)`, for `lo ≤ hi`.
abbrev pub clamp : ℕ → ℕ → ℕ → ℕ
clamp lo hi x = max lo (min x hi)

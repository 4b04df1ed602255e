-- ===== src/Common/Digits.antt =====
-- Unsigned decimal integers, as `parse::<u32>()` and its kin read them.
use Prim.Native.Nat.{ℕ, zero, suc, ◌+◌, ◌-◌, ◌*◌, ◌/◌, ◌%◌, ◌^◌, ◌≤◌, ◌<◌}
use mathlib.Core.Path.{◌≡◌, refl, ◌∙◌}
use mathlib.Core.Bool.{Bool, true, false, ◌&&◌}
use mathlib.Core.Option.{Option, none, some}
use mathlib.Core.List.{[], ◌∷◌}
use mathlib.Core.Logic.{inl, inr}
use native.Mathlib.Omega.{arith}
use geata.Common.Tests.{Bool-cases, nat_eq, leb, ltb, if◌then◌else◌}
use geata.Common.Lists.{length}
use geata.Common.Text.{Text}

-- `is_ascii_digit`
unfoldable pub is_digit : ℕ → Bool
is_digit c = leb b'0' c && leb c b'9'

unfoldable pub all_digits : Text → Bool
all_digits [] = true
all_digits (c ∷ s) = let rest = all_digits s in if is_digit c then rest else false

unfoldable pub digits_value : ℕ → Text → Option ℕ
unfolding is_digit
digits_value n [] = some n
digits_value n (c ∷ s) =
    let rest = digits_value (n * 10 + (c - b'0')) s in if is_digit c then rest else none

abbrev pub up_to : ℕ → Option ℕ → Option ℕ
up_to most none = none
up_to most (some n) = if leb n most then some n else none

abbrev digits : ℕ → Text → Option ℕ
digits most [] = none
digits most (c ∷ s) = up_to most (digits_value 0 (c ∷ s))

-- An optional `+` and at least one digit, at most the greatest value of the type. The source stops at
-- the first step that overflows; no later digit would bring the value back.
unfoldable pub parse_uint : ℕ → Text → Option ℕ
unfolding digits_value
parse_uint most [] = none
parse_uint most (c ∷ s) = if nat_eq c b'+' then digits most s else digits most (c ∷ s)

-- A value that was read is in range.
abbrev pub AtMost : ℕ → Option ℕ → Type 0
AtMost most none = Unit
AtMost most (some n) = n ≤ most

up_to-AtMost : (most : ℕ) (o : Option ℕ) → AtMost most (up_to most o)
up_to-AtMost most none = tt
up_to-AtMost most (some n) = ground arith

digits-AtMost : (most : ℕ) (s : Text) → AtMost most (digits most s)
digits-AtMost most [] = tt
digits-AtMost most (c ∷ s) = up_to-AtMost most (digits_value 0 (c ∷ s))

pub parse_uint-AtMost : (most : ℕ) (s : Text) → AtMost most (parse_uint most s)
unfolding parse_uint
parse_uint-AtMost most [] = tt
parse_uint-AtMost most (c ∷ s) = ground (arith, digits-AtMost most s, digits-AtMost most (c ∷ s))

-- A filter on an option.
abbrev pub keep_some : (ℕ → Bool) → Option ℕ → Option ℕ
keep_some p none = none
keep_some p (some n) = if p n then some n else none

-- A decimal number, behind which `s` stands.
unfoldable pub decimal_onto : ℕ → ℕ → Text → Text
decimal_onto zero n s = s
decimal_onto (suc fuel) n s =
    let digit = b'0' + n % 10 in
    let more = decimal_onto fuel (n / 10) (digit ∷ s) in if ltb n 10 then digit ∷ s else more

digit_step :
    (n : ℕ) (s : Text)
    → (if is_digit (b'0' + n % 10)
        then digits_value (n / 10 * 10 + (b'0' + n % 10 - b'0')) s
        else none)
      ≡ digits_value n s
unfolding is_digit
digit_step n s =
    let value : n / 10 * 10 + (b'0' + n % 10 - b'0') ≡ n = omega arith in rw value (ground arith)

decimal_value :
    (fuel n : ℕ) (s : Text)
    → n < 10 ^ suc fuel
    → digits_value 0 (decimal_onto (suc fuel) n s) ≡ digits_value n s
unfolding decimal_onto digits_value
decimal_value zero n s h = elim (Bool-cases (ltb n 10)) [
  | inl e ↦ rw e (ground arith)
  | inr e ↦ absurd (ground arith)
]
decimal_value (suc fuel) n s h = elim (Bool-cases (ltb n 10)) [
  | inl e ↦ rw e (ground arith)
  | inr e ↦
      rw e (decimal_value fuel (n / 10) ((b'0' + n % 10) ∷ s) (omega (arith, h)) ∙ digit_step n s)
]

-- The last digit is put in front of what stands behind it, so that digits stand before digits.
decimal-digits :
    (fuel n : ℕ) (s : Text) → all_digits s ≡ true → all_digits (decimal_onto fuel n s) ≡ true
unfolding decimal_onto all_digits is_digit
decimal-digits zero n s h = h
decimal-digits (suc fuel) n s h =
    let digit : all_digits ((b'0' + n % 10) ∷ s) ≡ true = ground (arith, h) in
    ground (arith, digit, decimal-digits fuel (n / 10) ((b'0' + n % 10) ∷ s))

-- The decimal digits of a `u64`.
unfoldable pub decimal : ℕ → Text
unfolding decimal_onto
decimal n = decimal_onto 20 n []

parse_digits :
    (most n c : ℕ) (s : Text)
    → all_digits (c ∷ s) ≡ true
    → digits_value 0 (c ∷ s) ≡ some n
    → n ≤ most
    → parse_uint most (c ∷ s) ≡ some n
unfolding parse_uint all_digits is_digit
parse_digits most n c s h v le = ground (arith, v)

decimal-long : (fuel n : ℕ) (s : Text) → length s < length (decimal_onto (suc fuel) n s)
unfolding decimal_onto
decimal-long zero n s = ground arith
decimal-long (suc fuel) n s = ground (arith, decimal-long fuel (n / 10) ((b'0' + n % 10) ∷ s))

-- What is written in decimal is read back.
pub parse_uint-decimal :
    (most n : ℕ) → n ≤ most → n < 10 ^ 20 → parse_uint most (decimal n) ≡ some n
unfolding decimal all_digits digits_value
parse_uint-decimal most n le small =
    go (decimal_onto 20 n []) (decimal-long 19 n []) (decimal-digits 20 n [] refl)
      (decimal_value 19 n [] small)
  where
    go :
        (s : Text)
        → 0 < length s
        → all_digits s ≡ true
        → digits_value 0 s ≡ some n
        → parse_uint most s ≡ some n
    go [] long h v = absurd (omega (arith, long))
    go (c ∷ s) long h v = parse_digits most n c s h v le

pub decimal_number : (n : ℕ) → (0 < length (decimal n)) × (all_digits (decimal n) ≡ true)
unfolding decimal all_digits
decimal_number n = (decimal-long 19 n [], decimal-digits 20 n [] refl)

-- ===== src/Common/Text.antt =====
-- Text as its code points, for code that looks into it; ASCII text has one byte for each.
use Prim.Native.Char.{code}
use Prim.Native.String.{String}
use Prim.Native.Nat.{ℕ, ◌+◌}
use mathlib.Core.Path.{◌≡◌}
use mathlib.Core.Logic.{◌↔◌}
use mathlib.Core.Bool.{Bool, true, false, ◌&&◌, ◌||◌}
use mathlib.Core.Option.{Option, none, some}
use mathlib.Core.List.{List, [], ◌∷◌}
use native.Mathlib.Omega.{arith}
use geata.Common.Tests.{Key, nat_eq, leb, ltb, if◌then◌else◌}

abbrev pub Text : Type 0
Text = List ℕ

abbrev pub text : String → Text
text String.[] = []
text (String.◌∷◌ c s) = code c ∷ text s

unfoldable pub text_eq : Text → Text → Bool
text_eq [] [] = true
text_eq [] (y ∷ ys) = false
text_eq (x ∷ xs) [] = false
text_eq (x ∷ xs) (y ∷ ys) = let rest = text_eq xs ys in if nat_eq x y then rest else false

pub text_eq_iff : (s t : Text) → (text_eq s t ≡ true) ↔ (s ≡ t)
unfolding text_eq
text_eq_iff [] [] = ground arith
text_eq_iff [] (y ∷ ys) = ground arith
text_eq_iff (x ∷ xs) [] = ground arith
text_eq_iff (x ∷ xs) (y ∷ ys) = ground (arith, text_eq_iff xs ys)

instance abbrev pub text_Key : Key Text
text_Key = record { same = text_eq; same_iff = text_eq_iff }

-- `to_ascii_lowercase` of one character.
unfoldable pub lower : ℕ → ℕ
lower c = if leb b'A' c && leb c b'Z' then c + 32 else c

unfoldable pub to_ascii_lowercase : Text → Text
unfolding lower
to_ascii_lowercase [] = []
to_ascii_lowercase (c ∷ s) = lower c ∷ to_ascii_lowercase s

-- `split_once` at a character: what stands before and behind its first occurrence.
unfoldable pub split_once : ℕ → Text → Option (Text × Text)
split_once sep [] = none
split_once sep (c ∷ s) =
    let rest = split_once sep s in
    if nat_eq c sep then some ([], s) else elim rest [ none ↦ none | some (a, b) ↦ some (c ∷ a, b) ]

-- `trim_start_matches`, `trim_end_matches` for a test of one character.
unfoldable pub trim_start : (ℕ → Bool) → Text → Text
trim_start p [] = []
trim_start p (c ∷ s) = let rest = trim_start p s in if p c then rest else c ∷ s

unfoldable pub trim_end : (ℕ → Bool) → Text → Text
trim_end p [] = []
trim_end p (c ∷ s) = elim (trim_end p s) [
  | [] ↦ if p c then [] else c ∷ []
  | d ∷ rest ↦ c ∷ d ∷ rest
]

abbrev is_bracket : ℕ → Bool
is_bracket c = nat_eq c b'[' || nat_eq c b']'

-- `trim_matches(['[', ']'])`
unfoldable pub trim_brackets : Text → Text
unfolding trim_start trim_end
trim_brackets s = trim_end is_bracket (trim_start is_bracket s)

unfoldable pub strip_prefix : Text → Text → Option Text
strip_prefix [] s = some s
strip_prefix (p ∷ ps) [] = none
strip_prefix (p ∷ ps) (c ∷ s) = let rest = strip_prefix ps s in if nat_eq p c then rest else none

-- `strip_suffix`: what stands before the suffix.
unfoldable pub strip_suffix : Text → Text → Option Text
unfolding text_eq
strip_suffix end [] = if text_eq end [] then some [] else none
strip_suffix end (c ∷ s) =
    let rest = strip_suffix end s in
    if text_eq end (c ∷ s)
    then some []
    else elim rest [ none ↦ none | some before ↦ some (c ∷ before) ]

-- `contains` for a text.
unfoldable pub contains : Text → Text → Bool
unfolding strip_prefix
contains part [] = text_eq part []
contains part (c ∷ s) =
    let rest = contains part s in elim (strip_prefix part (c ∷ s)) [ some _ ↦ true | none ↦ rest ]

-- `split` at a character: the pieces, of which there is at least one.
unfoldable pub split : ℕ → Text → Text × List Text
split sep [] = ([], [])
split sep (c ∷ s) =
    let rest = split sep s in if nat_eq c sep then ([], rest.0 ∷ rest.1) else (c ∷ rest.0, rest.1)

-- `len`: the number of bytes in UTF-8.
unfoldable pub byte_length : Text → ℕ
byte_length [] = 0
byte_length (c ∷ s) =
    let rest = byte_length s in
    rest + (if ltb c 0x80 then 1 else if ltb c 0x800 then 2 else if ltb c 0x10000 then 3 else 4)

-- `is_ascii_alphanumeric`
unfoldable pub is_alphanumeric : ℕ → Bool
is_alphanumeric c =
    (leb b'0' c && leb c b'9') || ((leb b'A' c && leb c b'Z') || (leb b'a' c && leb c b'z'))

-- The order of texts, which is that of their UTF-8.
unfoldable pub text_lt : Text → Text → Bool
text_lt [] [] = false
text_lt [] (d ∷ t) = true
text_lt (c ∷ s) [] = false
text_lt (c ∷ s) (d ∷ t) =
    let rest = text_lt s t in if ltb c d then true else if nat_eq c d then rest else false

-- ===== src/Payments/TokenId.antt =====
-- `token_id` of crates/geata/src/payments/mod.rs: the bytes that are hashed, from a token's secrets.
use geata.Common.{
  ℕ, zero, suc, ◌/◌, ◌%◌, ◌^◌, Bool, true, false, List, [], ◌∷◌, ◌++◌, length, ltb, nat_eq,
  if◌then◌else◌,
}

abbrev pub Bytes : Type 0
Bytes = List ℕ

-- The order of strings, byte by byte.
unfoldable pub precedes : Bytes → Bytes → Bool
precedes [] ys = true
precedes (x ∷ xs) [] = false
precedes (x ∷ xs) (y ∷ ys) =
    let rest = precedes xs ys in if ltb x y then true else if nat_eq x y then rest else false

unfoldable pub insert_sorted : Bytes → List Bytes → List Bytes
insert_sorted s [] = s ∷ []
insert_sorted s (t ∷ ts) =
    let rest = insert_sorted s ts in if precedes s t then s ∷ t ∷ ts else t ∷ rest

-- `secrets.sort()`
unfoldable pub sort : List Bytes → List Bytes
unfolding insert_sorted
sort [] = []
sort (s ∷ ss) = insert_sorted s (sort ss)

-- The last `k` bytes of a number, the highest first.
unfoldable pub be_bytes : ℕ → ℕ → Bytes
be_bytes zero n = []
be_bytes (suc k) n = n / 256 ^ k % 256 ∷ be_bytes k n

-- Each secret behind its length as eight bytes, `(secret.len() as u64).to_be_bytes()`.
unfoldable pub framed : List Bytes → Bytes
unfolding be_bytes
framed [] = []
framed (s ∷ ss) = be_bytes 8 (length s) ++ (s ++ framed ss)

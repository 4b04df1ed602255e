-- ===== src/Config/Tokenizer/Total.antt =====
-- The loops of `tokenize` (crates/geata/src/config.rs) end: its fuel is enough.
use geata.Common.{
  ℕ, zero, suc, ◌≤◌, ◌≢◌, Bool, true, false, Option, none, some, List, [], ◌∷◌, ok, err, length,
  arith, nat_eq, if◌then◌else◌, ◌>>=◌, Bool-cases, inl, inr, not, ◌&&◌,
}
use geata.Common.Text.{Text}
use geata.Config.Token.{out_of_fuel, Parsed, TokenKind, Token}
use geata.Config.Tokenizer.{
  next_line, skip_comment, onto, quoted_end, word_end, ends_argument, unquoted, quoted_word,
  bare_word, token_kind, push_token, tokenize_from, tokenize, is_whitespace, is_delimiter,
}

skip_comment-le : (line : ℕ) (s : Text) → length (skip_comment line s).0 ≤ length s
unfolding skip_comment
skip_comment-le line [] = omega arith
skip_comment-le line (c ∷ s) = ground (arith, skip_comment-le line s)

-- The text behind a piece is no longer than before it.
abbrev Within : {A : Type 0} → ℕ → (A → Text) → Option (Text × A) → Type 0
Within n rest none = Unit
Within n rest (some (_, a)) = length (rest a) ≤ n

onto-Within :
    {A : Type 0} (n : ℕ) (rest : A → Text) (c : ℕ) (o : Option (Text × A))
    → Within n rest o
    → Within (suc n) rest (onto c o)
onto-Within n rest c none h = tt
onto-Within n rest c (some (s, a)) h = omega (arith, h)

if-Within :
    {A : Type 0} (n : ℕ) (rest : A → Text) (b : Bool) (x y : Option (Text × A))
    → Within n rest x
    → Within n rest y
    → Within n rest (if b then x else y)
if-Within n rest true x y h k = h
if-Within n rest false x y h k = k

quoted_end-Within :
    (escaped : Bool) (line : ℕ) (s : Text)
    → Within (length s) (λ r. r.0) (quoted_end escaped line s)
unfolding quoted_end
quoted_end-Within escaped line [] = tt
quoted_end-Within escaped line (c ∷ s) =
    if-Within (suc (length s)) (λ r. r.0) (not escaped && nat_eq c b'"')
      (some (c ∷ [], (s, next_line c line))) _ (omega arith)
      (onto-Within (length s) (λ r. r.0) c
        (quoted_end (not escaped && nat_eq c b'\\') (next_line c line) s)
        (quoted_end-Within (not escaped && nat_eq c b'\\') (next_line c line) s))

word_end-Within : (s : Text) → Within (length s) (λ r. r) (word_end s)
unfolding word_end
word_end-Within [] = omega arith
word_end-Within (c ∷ s) =
    if-Within (suc (length s)) (λ r. r) (is_delimiter c) (some ([], c ∷ s)) _ (omega arith)
      (if-Within (suc (length s)) (λ r. r) (nat_eq c b'"') none _ tt
        (onto-Within (length s) (λ r. r) c (word_end s) (word_end-Within s)))

-- A token is found or refused, and what is left is no longer.
abbrev Found : ℕ → Parsed (TokenKind × (Text × ℕ)) → Type 0
Found n (ok (_, (rest, _))) = length rest ≤ n
Found n (err e) = e ≢ out_of_fuel

module _ (json : Text → Option Text) where
  unquoted-Found :
      (n token_line line : ℕ) (rest : Text) (o : Option Text)
      → length rest ≤ n
      → Found n (unquoted json token_line line rest o)
  unquoted-Found n token_line line rest none h = cc
  unquoted-Found n token_line line rest (some value) h = elim (Bool-cases (ends_argument rest)) [
    | inl e ↦ rw e h
    | inr e ↦ rw e (cc)
  ]

  quoted_word-Found :
      (n line : ℕ) (o : Option (Text × (Text × ℕ)))
      → Within n (λ r. r.0) o
      → Found n (quoted_word json line o)
  quoted_word-Found n line none h = cc
  quoted_word-Found n line (some (body, (rest, line'))) h =
      unquoted-Found n line line' rest (json (b'"' ∷ body)) h

  bare_word-Found :
      (n line c : ℕ) (o : Option (Text × Text))
      → Within n (λ r. r) o
      → Found n (bare_word json line c o)
  bare_word-Found n line c none h = cc
  bare_word-Found n line c (some (s, rest)) h = h

  if-Found :
      (n : ℕ) (b : Bool) (x y : Parsed (TokenKind × (Text × ℕ)))
      → Found n x
      → Found n y
      → Found n (if b then x else y)
  if-Found n true x y h k = h
  if-Found n false x y h k = k

  token_kind-Found : (line c : ℕ) (s : Text) → Found (length s) (token_kind json line c s)
  unfolding token_kind
  token_kind-Found line c s =
      let n = length s in
      if-Found n (nat_eq c b'{') _ _ (omega arith) (
        if-Found n (nat_eq c b'}') _ _ (omega arith) (
          if-Found n (nat_eq c b'"') _ _
            (quoted_word-Found n line (quoted_end false line s) (quoted_end-Within false line s))
            (bare_word-Found n line c (word_end s) (word_end-Within s))))

  abbrev Ends : {A : Type 0} → Parsed A → Type 0
  Ends (ok _) = Unit
  Ends (err e) = e ≢ out_of_fuel

  push-Ends :
      (line : ℕ) (quoted : Bool) (n : ℕ) (next : ℕ → Text → Parsed (List Token))
      (r : Parsed (TokenKind × (Text × ℕ)))
      → Found n r
      → ((line' : ℕ) (rest : Text) → length rest ≤ n → Ends (next line' rest))
      → Ends (r >>= push_token json line quoted next)
  push-Ends line quoted n next (err e) h ends = h
  push-Ends line quoted n next (ok (kind, (rest, line'))) h ends =
      go (next line' rest) (ends line' rest h)
    where
      go :
          (p : Parsed (List Token))
          → Ends p
          → Ends
              (p >>= λ tokens. ok (record { line = line; kind = kind; quoted = quoted } ∷ tokens))
      go (ok _) e = tt
      go (err x) e = e

  if-Ends : (b : Bool) (x y : Parsed (List Token)) → Ends x → Ends y → Ends (if b then x else y)
  if-Ends true x y h k = h
  if-Ends false x y h k = k

  tokenize_from-Ends :
      (fuel line : ℕ) (s : Text) → length s ≤ fuel → Ends (tokenize_from json fuel line s)
  unfolding tokenize_from
  tokenize_from-Ends fuel line [] h = tt
  tokenize_from-Ends zero line (c ∷ s) h = absurd (omega arith)
  tokenize_from-Ends (suc fuel) line (c ∷ s) h =
      if-Ends (is_whitespace c) _ _ (tokenize_from-Ends fuel (next_line c line) s (omega arith)) (
        if-Ends (nat_eq c b'#') _ _
          (tokenize_from-Ends fuel (skip_comment line s).1 (skip_comment line s).0
            (omega (arith, skip_comment-le line s)))
          (push-Ends line (nat_eq c b'"') (length s) (tokenize_from json fuel)
            (token_kind json line c s) (token_kind-Found line c s)
            (λ line' rest le. tokenize_from-Ends fuel line' rest (omega (arith, le)))))

  Ends-ne : {A : Type 0} (r : Parsed A) → Ends r → r ≢ err out_of_fuel
  Ends-ne (ok a) h e = cc
  Ends-ne (err x) h e = h (cc)

  -- Every input is split into tokens or refused with an error of its own: the loops end.
  pub tokenize_total : (input : Text) → tokenize json input ≢ err out_of_fuel
  unfolding tokenize
  tokenize_total input = Ends-ne _ (tokenize_from-Ends (length input) 1 input (omega arith))

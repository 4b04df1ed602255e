-- ===== src/Config/Tokenizer.antt =====
-- `tokenize` of crates/geata/src/config.rs. Its loops run over the characters that are left.
pub mod Total
pub mod RoundTrip
use geata.Common.{
  ℕ, zero, suc, ◌+◌, Bool, true, false, ◌&&◌, ◌||◌, not, Option, none, some, List, [], ◌∷◌, ◌++◌,
  Result, ok, err, nat_eq, leb, if◌then◌else◌, length, ◌>>=◌, ◌>>◌,
}
use geata.Common.Text.{Text}
use geata.Config.Token.{
  ConfigError, Failure, failed, out_of_fuel, Parsed, fail, TokenKind, word, open_brace, close_brace,
  Token,
}

abbrev within : ℕ → ℕ → ℕ → Bool
within lo hi c = leb lo c && leb c hi

-- `char::is_whitespace`
unfoldable pub is_whitespace : ℕ → Bool
is_whitespace c =
    within 9 13 c
    || (nat_eq c 32
        || (nat_eq c 0x85
            || (nat_eq c 0xa0
                || (nat_eq c 0x1680
                    || (within 0x2000 0x200a c
                        || (within 0x2028 0x2029 c
                            || (nat_eq c 0x202f || (nat_eq c 0x205f || nat_eq c 0x3000))))))))

unfoldable pub is_delimiter : ℕ → Bool
unfolding is_whitespace
is_delimiter c = is_whitespace c || (nat_eq c b'{' || (nat_eq c b'}' || nat_eq c b'#'))

abbrev pub next_line : ℕ → ℕ → ℕ
next_line c line = if nat_eq c b'\n' then line + 1 else line

-- Behind a comment: what is left, and its line.
unfoldable pub skip_comment : ℕ → Text → Text × ℕ
skip_comment line [] = ([], line)
skip_comment line (c ∷ s) =
    let rest = skip_comment line s in if nat_eq c b'\n' then (s, line + 1) else rest

abbrev pub onto : {A : Type 0} → ℕ → Option (Text × A) → Option (Text × A)
onto c none = none
onto c (some (s, a)) = some (c ∷ s, a)

-- The text up to the closing quote, with it; then what is left, and its line.
unfoldable pub quoted_end : Bool → ℕ → Text → Option (Text × (Text × ℕ))
quoted_end escaped line [] = none
quoted_end escaped line (c ∷ s) =
    let line' = next_line c line in
    let rest = quoted_end (not escaped && nat_eq c b'\\') line' s in
    if not escaped && nat_eq c b'"' then some (c ∷ [], (s, line')) else onto c rest

-- The rest of a bare word and what is left; none at a quote inside it.
unfoldable pub word_end : Text → Option (Text × Text)
word_end [] = some ([], [])
word_end (c ∷ s) =
    let rest = word_end s in
    if is_delimiter c then some ([], c ∷ s) else if nat_eq c b'"' then none else onto c rest

abbrev pub ends_argument : Text → Bool
ends_argument [] = true
ends_argument (c ∷ _) = is_delimiter c

-- `json` reads a quoted string, as `serde_json::from_str` does.
module _ (json : Text → Option Text) where
  abbrev pub unquoted : ℕ → ℕ → Text → Option Text → Parsed (TokenKind × (Text × ℕ))
  unquoted token_line line rest none = fail token_line "invalid quoted string"
  unquoted token_line line rest (some value) =
      if ends_argument rest
      then ok (word value, (rest, line))
      else fail line "expected whitespace after a quoted string"

  abbrev pub quoted_word : ℕ → Option (Text × (Text × ℕ)) → Parsed (TokenKind × (Text × ℕ))
  quoted_word token_line none = fail token_line "unterminated quoted string"
  quoted_word token_line (some (body, (rest, line))) =
      unquoted token_line line rest (json (b'"' ∷ body))

  abbrev pub bare_word : ℕ → ℕ → Option (Text × Text) → Parsed (TokenKind × (Text × ℕ))
  bare_word line c none = fail line "quoted strings must start at the beginning of an argument"
  bare_word line c (some (s, rest)) = ok (word (c ∷ s), (rest, line))

  -- The token that begins with `c`, what is left behind it, and the line there.
  unfoldable pub token_kind : ℕ → ℕ → Text → Parsed (TokenKind × (Text × ℕ))
  unfolding quoted_end word_end
  token_kind line c s =
      if nat_eq c b'{'
      then ok (open_brace, (s, line))
      else if nat_eq c b'}'
      then ok (close_brace, (s, line))
      else if nat_eq c b'"'
      then quoted_word line (quoted_end false line s)
      else bare_word line c (word_end s)

  abbrev pub push_token :
      ℕ → Bool → (ℕ → Text → Parsed (List Token)) → TokenKind × (Text × ℕ) → Parsed (List Token)
  push_token line quoted next (kind, (rest, line')) = next line' rest >>= λ tokens.
      ok (record { line = line; kind = kind; quoted = quoted } ∷ tokens)

  unfoldable pub tokenize_from : ℕ → ℕ → Text → Parsed (List Token)
  unfolding skip_comment token_kind
  tokenize_from fuel line [] = ok []
  tokenize_from zero line (c ∷ s) = err out_of_fuel
  tokenize_from (suc fuel) line (c ∷ s) =
      let blank = tokenize_from fuel (next_line c line) s in
      let comment = tokenize_from fuel (skip_comment line s).1 (skip_comment line s).0 in
      let token = token_kind line c s >>= push_token line (nat_eq c b'"') (tokenize_from fuel) in
      if is_whitespace c then blank else if nat_eq c b'#' then comment else token

  unfoldable pub tokenize : Text → Parsed (List Token)
  unfolding tokenize_from
  tokenize input = tokenize_from (length input) 1 input

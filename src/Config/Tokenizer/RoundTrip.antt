-- ===== src/Config/Tokenizer/RoundTrip.antt =====
-- A description of the texts that `tokenize` (crates/geata/src/config.rs) reads, and that it reads them.
use geata.Common.{
  ℕ, zero, suc, ◌≤◌, ◌≡◌, refl, ap, ◌∙◌, Bool, true, false, not, ◌&&◌, Option, some, List, [], ◌∷◌,
  ◌++◌, ok, length, arith, nat_eq, ◌>>=◌, All, all, length-append,
}
use geata.Common.Text.{Text}
use geata.Config.Token.{Parsed, TokenKind, word, open_brace, close_brace, Token}
use geata.Config.Tokenizer.{
  is_whitespace, is_delimiter, next_line, quoted_end, word_end, token_kind, push_token,
  tokenize_from, tokenize,
}

-- A character of a quoted string, or a backslash with the one that it escapes.
pub data Piece : Type 0 where
  plain : ℕ → Piece
  escape : ℕ → Piece

-- A word has a first character; a quoted string has its pieces and its value.
pub data Lexeme : Type 0 where
  bare : ℕ → Text → Lexeme
  string : List Piece → Text → Lexeme
  opening closing : Lexeme

abbrev pub pieces_text : List Piece → Text
pieces_text [] = []
pieces_text (plain c ∷ ps) = c ∷ pieces_text ps
pieces_text (escape c ∷ ps) = b'\\' ∷ c ∷ pieces_text ps

abbrev pub lexeme_text : Lexeme → Text
lexeme_text (bare c s) = c ∷ s
lexeme_text (string ps value) = b'"' ∷ (pieces_text ps ++ (b'"' ∷ []))
lexeme_text opening = b'{' ∷ []
lexeme_text closing = b'}' ∷ []

-- Each lexeme with one character behind it.
abbrev pub print : List (Lexeme × ℕ) → Text
print [] = []
print ((l, c) ∷ ls) = lexeme_text l ++ (c ∷ print ls)

abbrev pub pieces_line : ℕ → List Piece → ℕ
pieces_line line [] = line
pieces_line line (plain c ∷ ps) = pieces_line (next_line c line) ps
pieces_line line (escape c ∷ ps) = pieces_line (next_line c line) ps

abbrev pub line_after : ℕ → Lexeme → ℕ
line_after line (bare c s) = line
line_after line (string ps value) = pieces_line line ps
line_after line opening = line
line_after line closing = line

abbrev pub kind_of : Lexeme → TokenKind
kind_of (bare c s) = word (c ∷ s)
kind_of (string ps value) = word value
kind_of opening = open_brace
kind_of closing = close_brace

abbrev pub is_string : Lexeme → Bool
is_string (bare c s) = false
is_string (string ps value) = true
is_string opening = false
is_string closing = false

abbrev pub tokens : ℕ → List (Lexeme × ℕ) → List Token
tokens line [] = []
tokens line ((l, c) ∷ ls) =
    record { line = line; kind = kind_of l; quoted = is_string l }
    ∷ tokens (next_line c (line_after line l)) ls

abbrev pub is_plain : Piece → Bool
is_plain (plain c) = not (nat_eq c b'"') && not (nat_eq c b'\\')
is_plain (escape c) = true

abbrev pub in_word : ℕ → Bool
in_word c = not (is_delimiter c) && not (nat_eq c b'"')

-- A string's text is one that `json` reads as its value.
abbrev pub IsLexeme : (Text → Option Text) → Lexeme → Type 0
IsLexeme json (bare c s) = (in_word c ≡ true) × (all in_word s ≡ true)
IsLexeme json (string ps value) =
    (all is_plain ps ≡ true) × (json (b'"' ∷ (pieces_text ps ++ (b'"' ∷ []))) ≡ some value)
IsLexeme json opening = Unit
IsLexeme json closing = Unit

quoted_end-pieces :
    (ps : List Piece) (line : ℕ) (rest : Text)
    → all is_plain ps ≡ true
    → quoted_end false line (pieces_text ps ++ (b'"' ∷ rest))
      ≡ some (pieces_text ps ++ (b'"' ∷ []), (rest, pieces_line line ps))
unfolding quoted_end
quoted_end-pieces [] line rest h = refl
quoted_end-pieces (plain c ∷ ps) line rest h =
    ground (arith, quoted_end-pieces ps (next_line c line) rest)
quoted_end-pieces (escape c ∷ ps) line rest h =
    ground (arith, quoted_end-pieces ps (next_line c line) rest)

word_end-word :
    (s : Text) (c : ℕ) (rest : Text)
    → all in_word s ≡ true
    → is_delimiter c ≡ true
    → word_end (s ++ (c ∷ rest)) ≡ some (s, c ∷ rest)
unfolding word_end
word_end-word [] c rest h d = ground arith
word_end-word (b ∷ s) c rest h d = ground (arith, word_end-word s c rest)

whitespace-delimits : (c : ℕ) → is_whitespace c ≡ true → is_delimiter c ≡ true
unfolding is_delimiter
whitespace-delimits c h = ground (arith, h)

delimiter-not-hash :
    (c : ℕ)
    → is_delimiter c ≡ false
    → (is_whitespace c ≡ false)
      × ((nat_eq c b'#' ≡ false) × ((nat_eq c b'{' ≡ false) × (nat_eq c b'}' ≡ false)))
unfolding is_delimiter
delimiter-not-hash c h = ground (arith, h)

module _ (json : Text → Option Text) where
  token_kind-bare :
      (line c : ℕ) (s : Text) (d : ℕ) (rest : Text)
      → in_word c ≡ true
      → all in_word s ≡ true
      → is_whitespace d ≡ true
      → token_kind json line c (s ++ (d ∷ rest)) ≡ ok (word (c ∷ s), (d ∷ rest, line))
  unfolding token_kind
  token_kind-bare line c s d rest h k w =
      ground (arith, delimiter-not-hash c, word_end-word s d rest k (whitespace-delimits d w))

  token_kind-string :
      (line : ℕ) (ps : List Piece) (value : Text) (d : ℕ) (rest : Text)
      → IsLexeme json (string ps value)
      → is_whitespace d ≡ true
      → token_kind json line b'"' (pieces_text ps ++ (b'"' ∷ (d ∷ rest)))
        ≡ ok (word value, (d ∷ rest, pieces_line line ps))
  unfolding token_kind
  token_kind-string line ps value d rest h w =
      ground (arith, quoted_end-pieces ps line (d ∷ rest) h.0, whitespace-delimits d w, h.1)

  tokenize_from-blank :
      (fuel line c : ℕ) (s : Text)
      → is_whitespace c ≡ true
      → tokenize_from json (suc fuel) line (c ∷ s) ≡ tokenize_from json fuel (next_line c line) s
  unfolding tokenize_from
  tokenize_from-blank fuel line c s h = rw h refl

  tokenize_from-empty : (fuel line : ℕ) → tokenize_from json fuel line [] ≡ ok []
  unfolding tokenize_from
  tokenize_from-empty fuel line = refl

  tokenize_from-step :
      (fuel line c : ℕ) (s : Text)
      → is_whitespace c ≡ false
      → nat_eq c b'#' ≡ false
      → tokenize_from json (suc fuel) line (c ∷ s) ≡ (
          token_kind json line c s
          >>= push_token json line (nat_eq c b'"') (tokenize_from json fuel))
  unfolding tokenize_from
  tokenize_from-step fuel line c s w h = rw (w, h) refl

  -- The characters with which a string and a brace begin are no whitespace.
  visible :
      (is_whitespace b'"' ≡ false) × ((is_whitespace b'{' ≡ false) × (is_whitespace b'}' ≡ false))
  unfolding is_whitespace
  visible = (refl, (refl, refl))

  token_kind-braces :
      (line : ℕ) (s : Text)
      → (token_kind json line b'{' s ≡ ok (open_brace, (s, line)))
        × (token_kind json line b'}' s ≡ ok (close_brace, (s, line)))
  unfolding token_kind
  token_kind-braces line s = (refl, refl)

  -- A token, the character behind it, and the rest.
  tokenize_from-token :
      (fuel line c : ℕ) (s : Text) (kind : TokenKind) (line' d : ℕ) (rest : Text) (ts : List Token)
      → is_whitespace c ≡ false
      → nat_eq c b'#' ≡ false
      → token_kind json line c s ≡ ok (kind, (d ∷ rest, line'))
      → is_whitespace d ≡ true
      → tokenize_from json fuel (next_line d line') rest ≡ ok ts
      → tokenize_from json (suc (suc fuel)) line (c ∷ s)
        ≡ ok (record { line = line; kind = kind; quoted = nat_eq c b'"' } ∷ ts)
  tokenize_from-token fuel line c s kind line' d rest ts w h k v r =
      tokenize_from-step (suc fuel) line c s w h
      ∙ (ap
            (λ (p : Parsed (TokenKind × (Text × ℕ))).
              p >>= push_token json line (nat_eq c b'"') (tokenize_from json (suc fuel)))
            k
          ∙ ap
              (λ (p : Parsed (List Token)). p >>= λ tokens.
                ok (record { line = line; kind = kind; quoted = nat_eq c b'"' } ∷ tokens))
              (tokenize_from-blank fuel line' d rest v ∙ r))

  append-one : (xs : Text) (q : ℕ) (ys : Text) → (xs ++ (q ∷ [])) ++ ys ≡ xs ++ (q ∷ ys)
  append-one [] q ys = refl
  append-one (x ∷ xs) q ys = ap (λ s. x ∷ s) (append-one xs q ys)

  abbrev pub IsLine : Lexeme × ℕ → Type 0
  IsLine (l, c) = IsLexeme json l × (is_whitespace c ≡ true)

  tokenize_from-lexeme :
      (fuel line : ℕ) (l : Lexeme) (d : ℕ) (rest : Text) (ts : List Token)
      → IsLexeme json l
      → is_whitespace d ≡ true
      → tokenize_from json fuel (next_line d (line_after line l)) rest ≡ ok ts
      → tokenize_from json (suc (suc fuel)) line (lexeme_text l ++ (d ∷ rest))
        ≡ ok (record { line = line; kind = kind_of l; quoted = is_string l } ∷ ts)
  tokenize_from-lexeme fuel line (bare c s) d rest ts h w r =
      let free = delimiter-not-hash c (ground (arith, h.0)) in
      tokenize_from-token fuel line c (s ++ (d ∷ rest)) (word (c ∷ s)) line d rest ts free.0
        free.1.0 (token_kind-bare line c s d rest h.0 h.1 w) w r
      ∙ ap (λ b. ok (record { line = line; kind = word (c ∷ s); quoted = b } ∷ ts))
          (ground (arith, h.0))
  tokenize_from-lexeme fuel line (string ps value) d rest ts h w r =
      ap (λ s. tokenize_from json (suc (suc fuel)) line (b'"' ∷ s))
        (append-one (pieces_text ps) b'"' (d ∷ rest))
      ∙ tokenize_from-token fuel line b'"' (pieces_text ps ++ (b'"' ∷ (d ∷ rest))) (word value)
          (pieces_line line ps) d rest ts visible.0 refl
          (token_kind-string line ps value d rest h w) w r
  tokenize_from-lexeme fuel line opening d rest ts h w r =
      tokenize_from-token fuel line b'{' (d ∷ rest) open_brace line d rest ts visible.1.0 refl
        (token_kind-braces line (d ∷ rest)).0 w r
  tokenize_from-lexeme fuel line closing d rest ts h w r =
      tokenize_from-token fuel line b'}' (d ∷ rest) close_brace line d rest ts visible.1.1 refl
        (token_kind-braces line (d ∷ rest)).1 w r

  lexeme-long : (l : Lexeme) (rest : Text) → suc (length rest) ≤ length (lexeme_text l ++ rest)
  lexeme-long (bare c s) rest = omega (arith, length-append s rest)
  lexeme-long (string ps value) rest =
      omega (arith, length-append (pieces_text ps ++ (b'"' ∷ [])) rest)
  lexeme-long opening rest = omega arith
  lexeme-long closing rest = omega arith

  tokenize_from-print :
      (ls : List (Lexeme × ℕ)) (fuel line : ℕ)
      → All IsLine ls
      → length (print ls) ≤ fuel
      → tokenize_from json fuel line (print ls) ≡ ok (tokens line ls)
  tokenize_from-print [] fuel line h le = tokenize_from-empty fuel line
  tokenize_from-print ((l, d) ∷ ls) zero line h le =
      absurd (omega (arith, le, lexeme-long l (d ∷ print ls)))
  tokenize_from-print ((l, d) ∷ ls) (suc zero) line h le =
      absurd (omega (arith, le, lexeme-long l (d ∷ print ls)))
  tokenize_from-print ((l, d) ∷ ls) (suc (suc fuel)) line h le =
      tokenize_from-lexeme fuel line l d (print ls) (tokens (next_line d (line_after line l)) ls)
        h.0.0 h.0.1
        (tokenize_from-print ls fuel (next_line d (line_after line l)) h.1
          (omega (arith, le, lexeme-long l (d ∷ print ls))))

  -- Words without quotes or delimiters, quoted strings that the string parser reads, and braces, each with a
  -- whitespace character behind it, come back as the tokens that they are, each with the number of its
  -- line and with whether it was quoted: a quoted brace or number sign stays a word.
  pub tokenize-print :
      (ls : List (Lexeme × ℕ)) → All IsLine ls → tokenize json (print ls) ≡ ok (tokens 1 ls)
  unfolding tokenize
  tokenize-print ls h = tokenize_from-print ls (length (print ls)) 1 h (omega arith)

-- ===== src/Config/Token.antt =====
-- Tokens and errors of the configuration (crates/geata/src/config.rs).
use geata.Common.{ℕ, String, Bool, Option, none, some, Result, err}
use geata.Common.Text.{Text}

pub record ConfigError : Type 0 where
  pub line : ℕ
  pub message : String

-- `out_of_fuel` has no counterpart in the source; it never happens.
pub data Failure : Type 0 where
  failed : ConfigError → Failure
  out_of_fuel : Failure

abbrev pub Parsed : Type 0 → Type 0
Parsed A = Result Failure A

abbrev pub fail : {A : Type 0} → ℕ → String → Parsed A
fail line message = err (failed (record { line = line; message = message }))

pub data TokenKind : Type 0 where
  word : Text → TokenKind
  open_brace close_brace : TokenKind

pub record Token : Type 0 where
  pub line : ℕ
  pub kind : TokenKind
  pub quoted : Bool

abbrev pub kind_text : TokenKind → Option Text
kind_text (word s) = some s
kind_text open_brace = none
kind_text close_brace = none

-- `Token::text`
abbrev pub token_text : Token → Option Text
token_text t = kind_text t.kind

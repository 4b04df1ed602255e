-- ===== src/Payments/Price.antt =====
-- `PaymentPolicy` of crates/geata/src/payments/mod.rs: the price of a request and its mint.
use geata.Common.{ℕ, String, Result, ok, ltb, ok_or, ensure, ◌>>=◌, ◌>>◌, ◌==◌, u32_max}
use geata.Common.Digits.{parse_uint, keep_some}
use geata.Common.Text.{Text, text, text_Key}
use geata.Url.{Parsers, parse_mint}

pub record PaymentPolicy : Type 0 where
  pub price : ℕ
  pub mint : Text

-- `PaymentPolicy::parse`
unfoldable pub parse : Parsers → Text → Text → Text → Result String PaymentPolicy
unfolding parse_uint parse_mint
parse parsers price unit mint = do
  n ←
      ok_or (keep_some (λ n. ltb 0 n) (parse_uint u32_max price))
        "payment price must be a positive integer"
  ensure (unit == text "sat") "payments currently support sat only"
  url ← parse_mint parsers mint
  ok (record { price = n; mint = url })

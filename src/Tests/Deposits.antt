-- ===== src/Tests/Deposits.antt =====
-- Tests of deposits: a quote that nobody paid, long after its end.
use geata.Common.{◌≡◌, refl, true, false, Option, none, some, List, [], ◌⊎◌}
use geata.Common.Text.{Text, text, text_eq}
use geata.Lightning.{Invoice}
use geata.Payments.{sat}
use geata.Deposits.{
  MintQuote, QuoteResponse, Deposited, unpaid, can_prune_mint_deposit, has_mint_transaction,
}
use geata.Deposits.Unpaid.{IsUnpaid, can_prune_mint_deposit-IsUnpaid}

abbrev quote : MintQuote
quote = record {
  id = text "q";
  request = text "lnbc";
  amount = some 25;
  unit = sat;
  is_bolt11 = true;
  state = unpaid;
  amount_paid = 0;
  amount_issued = 0;
  used_by_operation = none;
  expiry = 1_000;
  updated_at = 700;
}

abbrev response : QuoteResponse
response = record {
  quote = text "q";
  request = text "lnbc";
  amount = some 25;
  unit = some sat;
  is_bolt11 = true;
  state = unpaid;
  amount_paid = 0;
  amount_issued = 0;
  updated_at = 9_000;
  expiry = some 1_000;
}

abbrev read_invoice : Text → Option Invoice
read_invoice _ = some (record {
  signed = true;
  payee = [];
  bitcoin = true;
  testnet = false;
  amount_milli_satoshis = some 25_000;
  description_hash = none;
  expiry_time = 300;
  created = 700;
  payment_hash = [];
})

can_prune_mint_deposit-IsUnpaid_example :
    ((rows : List Deposited) × ((some [] ≡ some rows)
        × (has_mint_transaction read_invoice (text "q") 25 (text "lnbc") rows ≡ true)))
    ⊎ IsUnpaid read_invoice (text "lnbc") 9_000 (some quote) (some response)
unfolding can_prune_mint_deposit text_eq
can_prune_mint_deposit-IsUnpaid_example =
    can_prune_mint_deposit-IsUnpaid read_invoice (text "q") 25 (text "lnbc") (some [])
      (some (some quote)) 9_000 (some (some response)) refl

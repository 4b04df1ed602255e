-- ===== src/Deposits.antt =====
-- Deposits at a mint (crates/geata/src/payments/minting.rs): when the record of a quote may be forgotten. What the
-- wallet library, the mint and the clock answer are arguments; `none` is an error.
pub mod Unpaid
use geata.Common.{
  ℕ, ◌+◌, Bool, true, false, ◌&&◌, ◌||◌, not, Option, none, some, List, ◌==◌, if◌then◌else◌, ltb,
  leb, nat_eq, any, is_some, saturating_add, u64_max,
}
use geata.Common.Text.{Text, text_Key}
use geata.Lightning.{Invoice, skew}
use geata.Payments.{CurrencyUnit, is_sat}

-- `QUOTE_PRUNE_GRACE`
abbrev pub quote_prune_grace : ℕ
quote_prune_grace = skew + 3600

pub data MintQuoteState : Type 0 where
  unpaid paid issued : MintQuoteState

abbrev is_unpaid : MintQuoteState → Bool
is_unpaid unpaid = true
is_unpaid paid = false
is_unpaid issued = false

pub record MintQuote : Type 0 where
  pub id : Text
  pub request : Text
  pub amount : Option ℕ
  pub unit : CurrencyUnit
  pub is_bolt11 : Bool
  pub state : MintQuoteState
  pub amount_paid : ℕ
  pub amount_issued : ℕ
  pub used_by_operation : Option Text
  pub expiry : ℕ
  pub updated_at : ℕ

-- The mint's fresh answer about a quote.
pub record QuoteResponse : Type 0 where
  pub quote : Text
  pub request : Text
  pub amount : Option ℕ
  pub unit : Option CurrencyUnit
  pub is_bolt11 : Bool
  pub state : MintQuoteState
  pub amount_paid : ℕ
  pub amount_issued : ℕ
  pub updated_at : ℕ
  pub expiry : Option ℕ

-- An incoming transaction of the wallet.
pub record Deposited : Type 0 where
  pub quote_id : Option Text
  pub payment_request : Option Text
  pub completed : Bool
  pub unit : CurrencyUnit
  pub amount : ℕ

-- An expiry of 0 is none at all.
unfoldable pub past_quote_grace : ℕ → ℕ → Bool
past_quote_grace expiry time =
    not (nat_eq expiry 0)
    && (leb (expiry + quote_prune_grace) u64_max && leb (expiry + quote_prune_grace) time)

abbrev is_text : Text → Option Text → Bool
is_text s none = false
is_text s (some t) = t == s

abbrev is_amount : ℕ → Option ℕ → Bool
is_amount n none = false
is_amount n (some m) = nat_eq m n

abbrev same_amount : Option ℕ → Option ℕ → Bool
same_amount none none = true
same_amount none (some _) = false
same_amount (some _) none = false
same_amount (some a) (some b) = nat_eq a b

abbrev is_sat_unit : Option CurrencyUnit → Bool
is_sat_unit none = false
is_sat_unit (some u) = is_sat u

abbrev is_past : ℕ → Option ℕ → Bool
is_past time none = false
is_past time (some expiry) = past_quote_grace expiry time

-- What the stored quote says: nothing was paid, and its time is over.
unfoldable pub is_idle : MintQuote → ℕ → Bool
unfolding past_quote_grace
is_idle quote time =
    is_unpaid quote.state
    && (nat_eq quote.amount_paid 0
        && (nat_eq quote.amount_issued 0
            && (not (is_some quote.used_by_operation)
                && (quote.is_bolt11 && (is_sat quote.unit && past_quote_grace quote.expiry time)))))

-- What the mint's answer says, in the quote's own terms; the unit of the quote is sat by then.
unfoldable pub is_confirmed : MintQuote → ℕ → QuoteResponse → Bool
unfolding past_quote_grace
is_confirmed quote time response =
    response.quote == quote.id
    && (response.request == quote.request
        && (same_amount response.amount quote.amount
            && (is_sat_unit response.unit
                && (response.is_bolt11
                    && (is_unpaid response.state
                        && (nat_eq response.amount_paid 0
                            && (nat_eq response.amount_issued 0
                                && (leb quote.updated_at response.updated_at
                                    && is_past time response.expiry))))))))

abbrev confirmed : MintQuote → ℕ → Option (Option QuoteResponse) → Option Bool
confirmed quote time none = none
confirmed quote time (some none) = some false
confirmed quote time (some (some response)) = some (is_confirmed quote time response)

abbrev invoice_end : Invoice → ℕ
invoice_end invoice = saturating_add u64_max invoice.created invoice.expiry_time

abbrev unpaid_invoice : MintQuote → ℕ → Option Invoice → Option (Option QuoteResponse) → Option Bool
unpaid_invoice quote time none response = some false
unpaid_invoice quote time (some invoice) response =
    if past_quote_grace (invoice_end invoice) time
    then confirmed quote time response
    else some false

module _ (parse : Text → Option Invoice) where
  -- `definitively_unpaid` at a time; the answer of the mint is none where it fails, and holds none where it
  -- is about another method.
  unfoldable pub definitively_unpaid : MintQuote → ℕ → Option (Option QuoteResponse) → Option Bool
  unfolding is_idle is_confirmed
  definitively_unpaid quote time response =
      if is_idle quote time
      then unpaid_invoice quote time (parse quote.request) response
      else some false

  -- `has_mint_transaction`
  unfoldable pub has_mint_transaction : Text → ℕ → Text → List Deposited → Bool
  has_mint_transaction id amount invoice transactions =
      any
        (λ tx.
          is_text id tx.quote_id
          && (is_text invoice tx.payment_request
              && (tx.completed && (is_sat tx.unit && leb amount tx.amount))))
        transactions

  abbrev prunable : ℕ → Text → ℕ → Option (Option QuoteResponse) → Option MintQuote → Option Bool
  prunable amount invoice time response none = some false
  prunable amount invoice time response (some quote) =
      if not (quote.request == invoice) || not (is_amount amount quote.amount)
      then some false
      else definitively_unpaid quote time response

  abbrev prune_or :
      ℕ → Text → ℕ → Option (Option QuoteResponse) → Option (Option MintQuote) → Option Bool
  prune_or amount invoice time response none = none
  prune_or amount invoice time response (some quote) = prunable amount invoice time response quote

  -- `can_prune_mint_deposit`, in a wallet that was opened and recovered: its transactions, the stored quote and the
  -- mint's answer.
  unfoldable pub can_prune_mint_deposit :
      Text
      → ℕ
      → Text
      → Option (List Deposited)
      → Option (Option MintQuote)
      → ℕ
      → Option (Option QuoteResponse)
      → Option Bool
  unfolding definitively_unpaid has_mint_transaction
  can_prune_mint_deposit id amount invoice none quote time response = none
  can_prune_mint_deposit id amount invoice (some transactions) quote time response =
      if has_mint_transaction id amount invoice transactions
      then some true
      else prune_or amount invoice time response quote

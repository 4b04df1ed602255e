-- ===== src/Deposits/Unpaid.antt =====
-- A deposit whose record goes was collected, or was not paid and can no longer be.
use geata.Common.{
  ℕ, ◌+◌, ◌≤◌, ◌≡◌, refl, subst, Bool, true, false, Option, none, some, List, if◌then◌else◌, arith,
  Bool-cases, ◌⊎◌, inl, inr,
}
use geata.Common.Text.{Text, text_Key}
use geata.Lightning.{Invoice}
use geata.Deposits.{
  MintQuote, QuoteResponse, Deposited, unpaid, quote_prune_grace, past_quote_grace, is_idle,
  is_confirmed, definitively_unpaid, has_mint_transaction, can_prune_mint_deposit, prunable,
  prune_or,
}

-- A moment after the grace of an expiry.
abbrev pub IsPast : ℕ → ℕ → Type 0
IsPast expiry time = expiry + quote_prune_grace ≤ time

abbrev pub IsPastOptional : Option ℕ → ℕ → Type 0
IsPastOptional none time = ⊥
IsPastOptional (some expiry) time = IsPast expiry time

module _ (parse : Text → Option Invoice) where
  -- The stored quote, its invoice and the mint's fresh answer agree that nothing was paid in time.
  abbrev pub IsUnpaid : Text → ℕ → Option MintQuote → Option QuoteResponse → Type 0
  IsUnpaid invoice time (some quote) (some response) =
      (quote.request ≡ invoice)
      × ((response.quote ≡ quote.id)
          × ((quote.state ≡ unpaid)
              × ((response.state ≡ unpaid)
                  × ((response.amount_paid ≡ 0)
                      × ((response.amount_issued ≡ 0)
                          × (IsPast quote.expiry time × IsPastOptional response.expiry time))))))
  IsUnpaid invoice time _ _ = ⊥

  abbrev pub flat : {A : Type 0} → Option (Option A) → Option A
  flat none = none
  flat (some o) = o

  confirmed-IsUnpaid :
      (quote : MintQuote) (response : QuoteResponse) (time : ℕ)
      → is_idle quote time ≡ true
      → is_confirmed quote time response ≡ true
      → IsUnpaid quote.request time (some quote) (some response)
  unfolding is_idle is_confirmed past_quote_grace
  confirmed-IsUnpaid quote response time h k =
      ground (arith, h, k, text_Key.same_iff response.quote quote.id)

  definitively_unpaid-IsUnpaid :
      (quote : MintQuote) (time : ℕ) (response : Option (Option QuoteResponse))
      → definitively_unpaid parse quote time response ≡ some true
      → IsUnpaid quote.request time (some quote) (flat response)
  unfolding definitively_unpaid
  definitively_unpaid-IsUnpaid quote time none h = absurd (ground (arith, h))
  definitively_unpaid-IsUnpaid quote time (some none) h = absurd (ground (arith, h))
  definitively_unpaid-IsUnpaid quote time (some (some response)) h =
      confirmed-IsUnpaid quote response time (ground (arith, h)) (ground (arith, h))

  prunable-IsUnpaid :
      (amount : ℕ) (invoice : Text) (quote : MintQuote) (time : ℕ)
      (response : Option (Option QuoteResponse))
      → prunable parse amount invoice time response (some quote) ≡ some true
      → IsUnpaid invoice time (some quote) (flat response)
  prunable-IsUnpaid amount invoice quote time response h =
      subst (λ i. IsUnpaid i time (some quote) (flat response))
        ((text_Key.same_iff quote.request invoice).0 (ground (arith, h)))
        (definitively_unpaid-IsUnpaid quote time response (ground (arith, h)))

  -- The record of a deposit may be forgotten only where the wallet has a completed transaction of it, or
  -- where the stored quote is of its invoice and, with the mint's fresh answer about that very quote, shows that nothing was
  -- paid or issued, an hour and a minute after the end that each of them names. Where the wallet or the
  -- mint cannot answer, the record stays.
  pub can_prune_mint_deposit-IsUnpaid :
      (id : Text) (amount : ℕ) (invoice : Text) (transactions : Option (List Deposited))
      (quote : Option (Option MintQuote)) (time : ℕ) (response : Option (Option QuoteResponse))
      → can_prune_mint_deposit parse id amount invoice transactions quote time response ≡ some true
      → ((rows : List Deposited) × ((transactions ≡ some rows)
            × (has_mint_transaction parse id amount invoice rows ≡ true)))
        ⊎ IsUnpaid invoice time (flat quote) (flat response)
  unfolding can_prune_mint_deposit
  can_prune_mint_deposit-IsUnpaid id amount invoice none quote time response h = absurd (cc)
  can_prune_mint_deposit-IsUnpaid id amount invoice (some rows) quote time response h =
      elim (Bool-cases (has_mint_transaction parse id amount invoice rows)) [
        | inl e ↦ inl (rows, (refl, e))
        | inr e ↦ inr (
            left quote (kept (has_mint_transaction parse id amount invoice rows) (some true) _ e h))
      ]
    where
      kept :
          (b : Bool) (x y : Option Bool)
          → b ≡ false
          → (if b then x else y) ≡ some true
          → y ≡ some true
      kept true x y e h = absurd (cc)
      kept false x y e h = h

      left :
          (q : Option (Option MintQuote))
          → prune_or parse amount invoice time response q ≡ some true
          → IsUnpaid invoice time (flat q) (flat response)
      left none h = absurd (cc)
      left (some none) h = absurd (ground (arith, h))
      left (some (some q)) h = prunable-IsUnpaid amount invoice q time response h

-- ===== src/Payout/Due.antt =====
-- When, and how much, an automatic payout of crates/geata/src/payments/payout.rs may send.
use geata.Common.{
  ℕ, ◌+◌, ◌≡◌, ◌≤◌, refl, sym, ap, subst, ◌∙◌, ◌⊎◌, inl, inr, true, false, not, List, ◌∷◌, Result,
  ok, err, arith, is_some, ◌||◌, ltb, none, some, Option, saturating_add, i64_max,
}
use geata.Common.Exec.{pure}
use geata.Ledger.{PayoutState}
use geata.Payments.{recover, flag_recovery}
use geata.Payments.Monad.{
  Collect, MintWallet, PaymentError, Answer, answer, failure, cancelled, await, always,
}
use geata.Payout.Policies.{PayoutPolicy}
use geata.Payout.{
  Prepared, Send, Payer, PayoutAnswers, due, automatic_payout, in_wallet, with_wallet, open_wallet,
  read_state, stored_state, initial, consider, attempt, save, confirm, deliver, cancel_send,
  send_request,
}
use geata.Payout.Steps.{
  Post, Ends, Ends-bind, Ends-if, in_wallet-Same, open_wallet-KeepsPayout, Post-state,
}

-- Any call of the wallet keeps what is said of the sends alone.
asked-sends :
    {A : Type 0} (Y : List Send → Type 0) (m : Collect A)
    → Ends (λ p. Y p.sends) (in_wallet m) (λ _ p. Y p.sends) (λ p. Y p.sends)
asked-sends {A} Y m p h = go (m p.wallet)
  where
    go :
        (r : Result PaymentError A × MintWallet)
        → Post (λ _ p. Y p.sends) (λ p. Y p.sends) (with_wallet p r)
    go (ok a, w) = h
    go (err e, w) = h

module _ (Y : List Send → Type 0) (sends : List Send) (most : ℕ) (same : Y sends)
    (more : (s : Send) → s.total ≤ most → Y (s ∷ sends)) where
  abbrev HasSends : Payer → Type 0
  HasSends p = p.sends ≡ sends

  abbrev Fits : Payer → Type 0
  Fits p = Y p.sends

  HasSends-Fits : (p : Payer) → HasSends p → Fits p
  HasSends-Fits p e = subst Y (sym e) same

  asked-HasSends : {A : Type 0} (m : Collect A) → Ends HasSends (in_wallet m) (λ _. HasSends) Fits
  asked-HasSends {A} m p h = go (m p.wallet)
    where
      go : (r : Result PaymentError A × MintWallet) → Post (λ _. HasSends) Fits (with_wallet p r)
      go (ok a, w) = h
      go (err e, w) = HasSends-Fits p h

  confirm-Fits :
      (total : ℕ) (o : Answer (Unit {0}))
      → total ≤ most
      → Ends HasSends (confirm total o) (λ _. Fits) Fits
  unfolding confirm
  confirm-Fits total (answer _) le p h =
      let s : Send = record { total = total; acknowledged = true } in
      subst (λ (l : List Send). Y (s ∷ l)) (sym h) (more s le)
  confirm-Fits total (failure e) le p h =
      let s : Send = record { total = total; acknowledged = false } in
      subst (λ (l : List Send). Y (s ∷ l)) (sym h) (more s le)
  confirm-Fits total cancelled le p h =
      let s : Send = record { total = total; acknowledged = false } in
      subst (λ (l : List Send). Y (s ∷ l)) (sym h) (more s le)

  deliver-Fits :
      (a : PayoutAnswers) (s : PayoutState) (prepared : Prepared)
      → prepared.total_amount ≤ most
      → Ends HasSends (deliver a s prepared) (λ _. Fits) Fits
  unfolding deliver
  deliver-Fits a s prepared le =
      Ends-bind HasSends (λ _. HasSends) (λ _. Fits) Fits
        (save a.guarded (record s { pending = some prepared.operation_id })) _ (asked-HasSends _)
        λ _.
          Ends-bind HasSends (λ _. Fits) (λ _. Fits) Fits
            (confirm prepared.total_amount a.confirmed) _
            (confirm-Fits prepared.total_amount a.confirmed le)
            λ _.
              Ends-bind Fits (λ _. Fits) (λ _. Fits) Fits
                (save a.finished (record s { pending = none; last_paid = a.paid_at })) _
                (asked-sends Y _) λ _. asked-sends Y (flag_recovery false)

  pub send_request-Fits :
      (a : PayoutAnswers) (s : PayoutState) → Ends HasSends (send_request most a s) (λ _. Fits) Fits
  unfolding send_request cancel_send
  send_request-Fits a s =
      Ends-bind HasSends (λ _. HasSends) (λ _. Fits) Fits (in_wallet (flag_recovery true)) _
        (asked-HasSends (flag_recovery true))
        λ _.
          Ends-bind HasSends (λ _. HasSends) (λ _. Fits) Fits (in_wallet (await always a.prepared))
            _ (asked-HasSends (await always a.prepared))
            λ prepared.
              Ends-if HasSends (λ _. Fits) Fits (ltb most prepared.total_amount) (cancel_send a)
                (deliver a s prepared)
                (λ _.
                  Ends-bind HasSends (λ _. HasSends) (λ _. Fits) Fits
                    (in_wallet (await always a.cancelled_send)) _
                    (asked-HasSends (await always a.cancelled_send)) λ _ p h. HasSends-Fits p h)
                (λ e. deliver-Fits a s prepared (ground (arith, e)))

-- The state by which a payout decides: the recorded one, or for a new wallet the time of this call.
abbrev pub recorded : PayoutAnswers → Option PayoutState → PayoutState
recorded a none = initial a.now
recorded a (some state) = state

-- Nothing was sent, or one send that was due and within the limit on its total.
abbrev pub IsDue : PayoutPolicy → PayoutAnswers → PayoutState → List Send → List Send → Type 0
IsDue policy a state sends after =
    (after ≡ sends)
    ⊎ ((s : Send) × (balance : ℕ) × (after ≡ s ∷ sends)
        × (s.total ≤ policy.amount + policy.max_fee)
        × (a.balance ≡ answer balance)
        × (due policy state a.now balance ≡ true))

module _ (policy : PayoutPolicy) (a : PayoutAnswers) (sends : List Send)
    (o : Option PayoutState) where
  abbrev Sent : Payer → Type 0
  Sent p = p.sends ≡ sends

  abbrev Fine : Payer → Type 0
  Fine p = IsDue policy a (recorded a o) sends p.sends

  asked : {A : Type 0} (m : Collect A) → Ends Sent (in_wallet m) (λ _. Sent) Fine
  asked {A} m p h = go (m p.wallet)
    where
      go : (r : Result PaymentError A × MintWallet) → Post (λ _. Sent) Fine (with_wallet p r)
      go (ok x, w) = h
      go (err e, w) = inl h

  asked_balance :
      (b : Answer ℕ)
      → Ends Sent (in_wallet (await always b)) (λ balance p. Sent p × (b ≡ answer balance)) Fine
  unfolding await
  asked_balance (answer balance) p h = (h, refl)
  asked_balance (failure e) p h = inl h
  asked_balance cancelled p h = inl h

  attempt-Fine :
      (balance : ℕ)
      → a.balance ≡ answer balance
      → due policy (recorded a o) a.now balance ≡ true
      → Ends Sent (attempt policy a (recorded a o)) (λ _. Fine) Fine
  unfolding attempt
  attempt-Fine balance e d =
      let cooled = record (recorded a o) { retry_at = saturating_add i64_max a.now 60 } in
      Ends-bind Sent (λ _. Sent) (λ _. Fine) Fine (save a.cooled cooled) _ (asked _)
        λ _.
          send_request-Fits (IsDue policy a (recorded a o) sends) sends
            (policy.amount + policy.max_fee) (inl refl) (λ s le. inr (s, balance, refl, le, e, d)) a
            cooled

  abbrev IsRead : PayoutState → Payer → Type 0
  IsRead s p = Sent p × (s ≡ recorded a o)

  consider-Fine : (s : PayoutState) → Ends (IsRead s) (consider policy a s) (λ _. Fine) Fine
  unfolding consider
  consider-Fine s p h =
      subst (λ s. Post (λ _. Fine) Fine (consider policy a s p)) (sym h.1)
        (Ends-if Sent (λ _. Fine) Fine
          (is_some (recorded a o).pending || ltb a.now (recorded a o).retry_at) (pure tt) _
          (λ _ q e. inl e)
          (λ _.
            Ends-bind Sent (λ _. Sent) (λ _. Fine) Fine (in_wallet (recover a.recovered)) _
              (asked (recover a.recovered))
              λ _.
                Ends-bind Sent (λ balance q. Sent q × (a.balance ≡ answer balance)) (λ _. Fine) Fine
                  (in_wallet (await always a.balance)) _ (asked_balance a.balance)
                  λ balance q e.
                    Ends-if Sent (λ _. Fine) Fine (not (due policy (recorded a o) a.now balance))
                      (pure tt) (attempt policy a (recorded a o)) (λ _ u x. inl x)
                      (λ d. attempt-Fine balance e.1 (ground (arith, d))) q e.0)
          p h.0)

  stored-IsRead :
      (x : Option PayoutState) (p : Payer) → x ≡ o → Sent p → Post IsRead Fine (stored_state a x p)
  stored-IsRead (some s) p e h = (h, ap (recorded a) e)
  stored-IsRead none p e h =
      Ends-bind Sent (λ _. Sent) IsRead Fine (save a.initialized (initial a.now)) _ (asked _)
        (λ _ q x. (x, ap (recorded a) e)) p h

  read_state-IsRead : Ends (λ p. Sent p × (p.wallet.ledger.payout ≡ o)) (read_state a) IsRead Fine
  unfolding read_state
  read_state-IsRead p h =
      Ends-if Sent IsRead Fine a.is_read (stored_state a p.wallet.ledger.payout) _
        (λ _ q e. stored-IsRead p.wallet.ledger.payout q h.1 e) (λ _ q e. inl e) p h.0

  opened :
      Ends
        (λ p. Sent p × (p.wallet.ledger.payout ≡ o))
        (in_wallet (open_wallet a))
        (λ _ p. Sent p × (p.wallet.ledger.payout ≡ o))
        Fine
  opened =
      in_wallet-Same (open_wallet a) _ (λ p. Sent p × (p.wallet.ledger.payout ≡ o)) Fine
        (open_wallet-KeepsPayout a) (λ p q same h. (same.0 ∙ h.0, same.1 ∙ h.1)) (λ p h. inl h.0)

  automatic_payout-Fine :
      Ends (λ p. Sent p × (p.wallet.ledger.payout ≡ o)) (automatic_payout policy a) (λ _. Fine) Fine
  unfolding automatic_payout
  automatic_payout-Fine =
      Ends-if _ (λ _. Fine) Fine a.busy (pure tt) _ (λ _ p h. inl h.0)
        λ _.
          Ends-bind _ (λ _ p. Sent p × (p.wallet.ledger.payout ≡ o)) (λ _. Fine) Fine
            (in_wallet (open_wallet a)) _ opened
            λ _.
              Ends-bind _ IsRead (λ _. Fine) Fine (read_state a) (consider policy a)
                read_state-IsRead consider-Fine

-- An automatic payout confirms one send at most. It does so only if the payout is due by the recorded
-- state, the clock and the balance that the wallet library answers, and the total of the send, its
-- fees included, is at most the amount and the maximal fee; this holds whatever is answered and
-- wherever the call is cancelled.
pub automatic_payout-IsDue :
    (policy : PayoutPolicy) (a : PayoutAnswers) (p : Payer)
    → IsDue policy a
        (recorded a p.wallet.ledger.payout)
        p.sends
        (automatic_payout policy a p).1.sends
automatic_payout-IsDue policy a p =
    let y = λ (q : Payer). IsDue policy a (recorded a p.wallet.ledger.payout) p.sends q.sends in
    Post-state y (automatic_payout policy a p)
      (automatic_payout-Fine policy a p.sends p.wallet.ledger.payout p (refl, refl))

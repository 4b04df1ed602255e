-- ===== src/Payout/History.antt =====
-- Histories of payouts from one mint's wallet (crates/geata/src/payments/payout.rs).
use geata.Common.{
  ℕ, ◌≡◌, ◌≤◌, refl, sym, ap, ◌∙◌, true, false, List, [], ◌∷◌, arith, is_some, ◌||◌, ltb, none,
  some, Option,
}
use geata.Common.Exec.{raise, pure}
use geata.Ledger.{PayoutState}
use geata.Ledger.Claims.{to_ℕ, to_ℕ-le}
use geata.Payments.{recover}
use geata.Payments.Monad.{Collect}
use geata.Payout.Policies.{PayoutPolicy}
use geata.Payout.{
  Send, Payer, payout_failed, PayoutAnswers, automatic_payout, pay, in_wallet, open_wallet,
  read_state, stored_state, consider, read_or_default, saved_or_default, pay_unless_pending,
  send_request,
}
use geata.Payout.Steps.{
  Post-state, Post, Ends, Ends-bind, Ends-if, KeepsPayout, in_wallet-Same, open_wallet-KeepsPayout,
  recover-KeepsPayout,
}
use geata.Payout.Guard.{uncertain, is_pending, IsGuarded, automatic_payout-IsGuarded, pay-IsGuarded}

-- What happens to a wallet: an automatic payout, one by the operator, or a restart of the process.
pub data Event : Type 0 where
  automatic : PayoutPolicy → PayoutAnswers → Event
  pays : ℕ → ℕ → PayoutAnswers → Event
  restarts : Event

unfoldable pub after : Event → Payer → Payer
after (automatic policy a) p = (automatic_payout policy a p).1
after (pays amount most a) p = (pay amount most a p).1
after restarts p = record p { wallet = record p.wallet { is_open = false; needs_recovery = false } }

unfoldable pub run : Payer → List Event → Payer
run p [] = p
run p (e ∷ es) = run (after e p) es

after-IsGuarded : (e : Event) (p : Payer) → IsGuarded p → IsGuarded (after e p)
unfolding after
after-IsGuarded (automatic policy a) p h =
    Post-state IsGuarded _ (automatic_payout-IsGuarded policy a p h)
after-IsGuarded (pays amount most a) p h = Post-state IsGuarded _ (pay-IsGuarded amount most a p h)
after-IsGuarded restarts p h = h

run-IsGuarded : (es : List Event) (p : Payer) → IsGuarded p → IsGuarded (run p es)
unfolding run
run-IsGuarded [] p h = h
run-IsGuarded (e ∷ es) p h = run-IsGuarded es (after e p) (after-IsGuarded e p h)

-- Over any history of automatic payouts, payments by the operator and restarts, whatever the wallet
-- library, the mint and the disk answer and wherever calls are cancelled, at most one send is of
-- unknown outcome; and if there is one, the ledger's record of payouts names a pending operation.
pub uncertain_once :
    (p : Payer) (es : List Event)
    → uncertain p.sends ≤ to_ℕ (is_pending p.wallet.ledger.payout)
    → (uncertain (run p es).sends ≤ 1)
      × (uncertain (run p es).sends ≤ to_ℕ (is_pending (run p es).wallet.ledger.payout))
uncertain_once p es h =
    let guarded : IsGuarded (run p es) = run-IsGuarded es p h in
    (omega (arith, guarded, to_ℕ-le (is_pending (run p es).wallet.ledger.payout)), guarded)

module _ (sends : List Send) where
  -- An operation is pending, and nothing was sent since.
  abbrev IsFrozen : Payer → Type 0
  IsFrozen p = (p.sends ≡ sends) × (is_pending p.wallet.ledger.payout ≡ true)

  abbrev HasPending : PayoutState → Payer → Type 0
  HasPending s p = IsFrozen p × (is_some s.pending ≡ true)

  asked-IsFrozen :
      {A : Type 0} (m : Collect A)
      → KeepsPayout m
      → Ends IsFrozen (in_wallet m) (λ _. IsFrozen) IsFrozen
  asked-IsFrozen m keeps =
      in_wallet-Same m IsFrozen IsFrozen IsFrozen keeps
        (λ p q same h. (same.0 ∙ h.0, ap is_pending same.1 ∙ h.1)) (λ p h. h)

  stored-HasPending :
      (a : PayoutAnswers) (o : Option PayoutState) (p : Payer)
      → p.wallet.ledger.payout ≡ o
      → IsFrozen p
      → Post HasPending IsFrozen (stored_state a o p)
  stored-HasPending a (some s) p e h = (h, sym (ap is_pending e) ∙ h.1)
  stored-HasPending a none p e h = absurd (ground (arith, h.1, ap is_pending e))

  read_state-HasPending : (a : PayoutAnswers) → Ends IsFrozen (read_state a) HasPending IsFrozen
  unfolding read_state
  read_state-HasPending a p h =
      Ends-if (λ q. IsFrozen q × (q.wallet.ledger.payout ≡ p.wallet.ledger.payout)) HasPending
        IsFrozen a.is_read (stored_state a p.wallet.ledger.payout) _
        (λ _ q e. stored-HasPending a p.wallet.ledger.payout q e.1 e.0) (λ _ q e. e.0) p (h, refl)

  consider-IsFrozen :
      (policy : PayoutPolicy) (a : PayoutAnswers) (s : PayoutState)
      → Ends (HasPending s) (consider policy a s) (λ _. IsFrozen) IsFrozen
  unfolding consider
  consider-IsFrozen policy a s =
      Ends-if (HasPending s) (λ _. IsFrozen) IsFrozen (is_some s.pending || ltb a.now s.retry_at)
        (pure tt) _ (λ _ p h. h.0) λ idle p h. absurd (ground (arith, idle, h.1))

  automatic_payout-IsFrozen :
      (policy : PayoutPolicy) (a : PayoutAnswers)
      → Ends IsFrozen (automatic_payout policy a) (λ _. IsFrozen) IsFrozen
  unfolding automatic_payout
  automatic_payout-IsFrozen policy a =
      Ends-if IsFrozen (λ _. IsFrozen) IsFrozen a.busy (pure tt) _ (λ _ p h. h)
        λ _.
          Ends-bind IsFrozen (λ _. IsFrozen) (λ _. IsFrozen) IsFrozen (in_wallet (open_wallet a)) _
            (asked-IsFrozen (open_wallet a) (open_wallet-KeepsPayout a))
            λ _.
              Ends-bind IsFrozen HasPending (λ _. IsFrozen) IsFrozen (read_state a)
                (consider policy a) (read_state-HasPending a) (consider-IsFrozen policy a)

  default-HasPending :
      (o : Option PayoutState) (p : Payer)
      → p.wallet.ledger.payout ≡ o
      → IsFrozen p
      → HasPending (saved_or_default o) p
  default-HasPending (some s) p e h = (h, sym (ap is_pending e) ∙ h.1)
  default-HasPending none p e h = absurd (ground (arith, h.1, ap is_pending e))

  read_or_default-HasPending :
      (a : PayoutAnswers) → Ends IsFrozen (read_or_default a) HasPending IsFrozen
  unfolding read_or_default
  read_or_default-HasPending a p h =
      Ends-if (λ q. IsFrozen q × (q.wallet.ledger.payout ≡ p.wallet.ledger.payout)) HasPending
        IsFrozen a.is_read (pure (saved_or_default p.wallet.ledger.payout)) _
        (λ _ q e. default-HasPending p.wallet.ledger.payout q e.1 e.0) (λ _ q e. e.0) p (h, refl)

  pay-IsFrozen :
      (amount most : ℕ) (a : PayoutAnswers)
      → Ends IsFrozen (pay amount most a) (λ _. IsFrozen) IsFrozen
  unfolding pay
  pay-IsFrozen amount most a p h =
      Ends-if IsFrozen (λ _. IsFrozen) IsFrozen (ltb most amount) (raise payout_failed) _
        (λ _ q g. g)
        (λ _.
          Ends-bind IsFrozen (λ _. IsFrozen) (λ _. IsFrozen) IsFrozen (in_wallet (open_wallet a)) _
            (asked-IsFrozen (open_wallet a) (open_wallet-KeepsPayout a))
            λ _.
              Ends-bind IsFrozen (λ _. IsFrozen) (λ _. IsFrozen) IsFrozen
                (in_wallet (recover a.recovered)) _
                (asked-IsFrozen (recover a.recovered) (recover-KeepsPayout a.recovered))
                λ _.
                  Ends-bind IsFrozen HasPending (λ _. IsFrozen) IsFrozen (read_or_default a)
                    (pay_unless_pending most a) (read_or_default-HasPending a)
                    λ s.
                      Ends-if (HasPending s) (λ _. IsFrozen) IsFrozen (is_some s.pending) _
                        (send_request most a s) (λ _ q r. r.0)
                        (λ e q r. absurd (ground (arith, e, r.1))))
        _ h

  after-IsFrozen : (e : Event) (p : Payer) → IsFrozen p → IsFrozen (after e p)
  unfolding after
  after-IsFrozen (automatic policy a) p h =
      Post-state IsFrozen _ (automatic_payout-IsFrozen policy a p h)
  after-IsFrozen (pays amount most a) p h = Post-state IsFrozen _ (pay-IsFrozen amount most a p h)
  after-IsFrozen restarts p h = h

  run-IsFrozen : (es : List Event) (p : Payer) → IsFrozen p → IsFrozen (run p es)
  unfolding run
  run-IsFrozen [] p h = h
  run-IsFrozen (e ∷ es) p h = run-IsFrozen es (after e p) (after-IsFrozen e p h)

-- While the ledger's record of payouts names a pending operation, no automatic payout, no payment by
-- the operator and no restart confirms another send or removes the record.
pub pending_never_resent :
    (p : Payer) (es : List Event)
    → is_pending p.wallet.ledger.payout ≡ true
    → ((run p es).sends ≡ p.sends) × (is_pending (run p es).wallet.ledger.payout ≡ true)
pending_never_resent p es h = run-IsFrozen p.sends es p (refl, h)

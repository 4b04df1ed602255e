-- ===== src/Payout/Guard.antt =====
-- The durable guard of payouts (crates/geata/src/payments/payout.rs): a send whose outcome is not known is never followed by another.
use geata.Common.{
  ℕ, ◌+◌, ◌≡◌, ◌≤◌, refl, ap, ◌∙◌, Bool, ◌||◌, true, false, not, Option, none, some, List, [], ◌∷◌,
  arith, if◌then◌else◌, is_some, ltb, saturating_add, i64_max,
}
use geata.Ledger.Claims.{to_ℕ}
use geata.Common.Exec.{pure, raise}
use geata.Ledger.{PayoutState, Commit}
use geata.Payments.Monad.{Answer, answer, failure, cancelled, await, always, Collect}
use geata.Payments.{flag_recovery, recover}
use geata.Payout.Policies.{PayoutPolicy}
use geata.Payout.{
  Prepared, Send, Payer, PayoutAnswers, in_wallet, open_wallet, confirm, save, cancel_send, deliver,
  send_request, stored_state, initial, read_state, attempt, consider, due, automatic_payout,
  read_or_default, pay_unless_pending, saved_or_default, payout_failed, pay,
}
use geata.Payout.Steps.{
  Post, Ends, Ends-bind, Ends-if, Same, await-KeepsPayout, open_wallet-KeepsPayout,
  recover-KeepsPayout, in_wallet-Same, save_finish, IsSaved, Post-weaken, KeepsPayout,
}

-- The sends whose outcome is not known.
abbrev pub uncertain : List Send → ℕ
uncertain [] = 0
uncertain (s ∷ sends) = (if s.acknowledged then 0 else 1) + uncertain sends

abbrev pub is_pending : Option PayoutState → Bool
is_pending none = false
is_pending (some s) = is_some s.pending

-- A send of unknown outcome has left the guard in the ledger.
abbrev pub IsGuarded : Payer → Type 0
IsGuarded p = uncertain p.sends ≤ to_ℕ (is_pending p.wallet.ledger.payout)

abbrev IsClean : Payer → Type 0
IsClean p = uncertain p.sends ≡ 0

abbrev HasGuard : Payer → Type 0
HasGuard p = (uncertain p.sends ≡ 0) × (is_pending p.wallet.ledger.payout ≡ true)

Same-IsClean : (p q : Payer) → Same p q → IsClean p → IsClean q
Same-IsClean p q s h = ap uncertain s.0 ∙ h

Same-IsGuarded : (p q : Payer) → Same p q → IsGuarded p → IsGuarded q
Same-IsGuarded p q s h = omega (arith, h, ap uncertain s.0, ap (λ o. to_ℕ (is_pending o)) s.1)

IsClean-IsGuarded : (p : Payer) → IsClean p → IsGuarded p
IsClean-IsGuarded p h = omega arith

confirm-Ends :
    (total : ℕ) (o : Answer (Unit {0})) → Ends HasGuard (confirm total o) (λ _. IsClean) IsGuarded
unfolding confirm
confirm-Ends total (answer _) p h = omega (arith, h.0)
confirm-Ends total (failure e) p h = ground (arith, h)
confirm-Ends total cancelled p h = ground (arith, h)

flag-IsGuarded : (b : Bool) → Ends IsClean (in_wallet (flag_recovery b)) (λ _. IsGuarded) IsGuarded
flag-IsGuarded b p h = IsClean-IsGuarded p h

saved-IsClean : (c : Commit) (s : PayoutState) → Ends IsClean (save c s) (λ _. IsClean) IsGuarded
saved-IsClean c s p h =
    Post-weaken (λ _. IsSaved s p) (λ _. IsClean) IsGuarded (save c s p)
      (λ _ q e. ap uncertain e.0 ∙ h)
      (save_finish c s p IsGuarded (IsClean-IsGuarded p h) (omega (arith, h)))

guard-HasGuard :
    (c : Commit) (s : PayoutState)
    → is_some s.pending ≡ true
    → Ends IsClean (save c s) (λ _. HasGuard) IsGuarded
guard-HasGuard c s e p h =
    Post-weaken (λ _. IsSaved s p) (λ _. HasGuard) IsGuarded (save c s p)
      (λ _ q saved. (ap uncertain saved.0 ∙ h, ap is_pending saved.1 ∙ e))
      (save_finish c s p IsGuarded (IsClean-IsGuarded p h) (omega (arith, h)))

asked-IsClean :
    {A : Type 0} (m : Collect A)
    → KeepsPayout m
    → Ends IsClean (in_wallet m) (λ _. IsClean) IsGuarded
asked-IsClean m keeps =
    in_wallet-Same m IsClean IsClean IsGuarded keeps Same-IsClean IsClean-IsGuarded

asked-IsGuarded :
    {A : Type 0} (m : Collect A)
    → KeepsPayout m
    → Ends IsGuarded (in_wallet m) (λ _. IsGuarded) IsGuarded
asked-IsGuarded m keeps =
    in_wallet-Same m IsGuarded IsGuarded IsGuarded keeps Same-IsGuarded (λ p h. h)

deliver-IsGuarded :
    (a : PayoutAnswers) (s : PayoutState) (prepared : Prepared)
    → Ends IsClean (deliver a s prepared) (λ _. IsGuarded) IsGuarded
unfolding deliver
deliver-IsGuarded a s prepared =
    Ends-bind IsClean (λ _. HasGuard) (λ _. IsGuarded) IsGuarded
      (save a.guarded (record s { pending = some prepared.operation_id })) _
      (guard-HasGuard a.guarded _ refl)
      λ _.
        Ends-bind HasGuard (λ _. IsClean) (λ _. IsGuarded) IsGuarded
          (confirm prepared.total_amount a.confirmed) _
          (confirm-Ends prepared.total_amount a.confirmed)
          λ _.
            Ends-bind IsClean (λ _. IsClean) (λ _. IsGuarded) IsGuarded
              (save a.finished (record s { pending = none; last_paid = a.paid_at })) _
              (saved-IsClean a.finished _) λ _. flag-IsGuarded false

cancel_send-IsGuarded :
    (a : PayoutAnswers) → Ends IsClean (cancel_send a) (λ _. IsGuarded) IsGuarded
unfolding cancel_send
cancel_send-IsGuarded a =
    Ends-bind IsClean (λ _. IsClean) (λ _. IsGuarded) IsGuarded
      (in_wallet (await always a.cancelled_send)) _
      (asked-IsClean (await always a.cancelled_send) (await-KeepsPayout always a.cancelled_send))
      λ _ p h. IsClean-IsGuarded p h

send_request-IsGuarded :
    (most : ℕ) (a : PayoutAnswers) (s : PayoutState)
    → Ends IsClean (send_request most a s) (λ _. IsGuarded) IsGuarded
unfolding send_request
send_request-IsGuarded most a s =
    Ends-bind IsClean (λ _. IsClean) (λ _. IsGuarded) IsGuarded (in_wallet (flag_recovery true)) _
      (λ p h. h)
      λ _.
        Ends-bind IsClean (λ _. IsClean) (λ _. IsGuarded) IsGuarded
          (in_wallet (await always a.prepared)) _
          (asked-IsClean (await always a.prepared) (await-KeepsPayout always a.prepared))
          λ prepared.
            Ends-if IsClean (λ _. IsGuarded) IsGuarded (ltb most prepared.total_amount)
              (cancel_send a) (deliver a s prepared) (λ _. cancel_send-IsGuarded a)
              (λ _. deliver-IsGuarded a s prepared)

attempt-IsGuarded :
    (policy : PayoutPolicy) (a : PayoutAnswers) (s : PayoutState)
    → Ends IsClean (attempt policy a s) (λ _. IsGuarded) IsGuarded
unfolding attempt
attempt-IsGuarded policy a s =
    let cooled = record s { retry_at = saturating_add i64_max a.now 60 } in
    Ends-bind IsClean (λ _. IsClean) (λ _. IsGuarded) IsGuarded (save a.cooled cooled) _
      (saved-IsClean a.cooled cooled)
      λ _. send_request-IsGuarded (policy.amount + policy.max_fee) a cooled

-- The state that was read has no guard only if the ledger has none.
abbrev Read : PayoutState → Payer → Type 0
Read s p = IsGuarded p × (is_some s.pending ≡ false → IsClean p)

stored_state-Read :
    (a : PayoutAnswers) (o : Option PayoutState) (p : Payer)
    → p.wallet.ledger.payout ≡ o
    → IsGuarded p
    → Post Read IsGuarded (stored_state a o p)
stored_state-Read a (some s) p e h =
    (h, λ none_pending. omega (arith, h, ap (λ o. to_ℕ (is_pending o)) e, ap to_ℕ none_pending))
stored_state-Read a none p e h =
    Ends-bind IsClean (λ _. IsClean) Read IsGuarded (save a.initialized (initial a.now)) _
      (saved-IsClean a.initialized (initial a.now))
      (λ _ q clean. (IsClean-IsGuarded q clean, λ _. clean)) p
      (omega (arith, h, ap (λ o. to_ℕ (is_pending o)) e))

read_state-Read : (a : PayoutAnswers) → Ends IsGuarded (read_state a) Read IsGuarded
unfolding read_state
read_state-Read a p h =
    Ends-if (λ q. IsGuarded q × (q.wallet.ledger.payout ≡ p.wallet.ledger.payout)) Read IsGuarded
      a.is_read (stored_state a p.wallet.ledger.payout) _
      (λ _ q e. stored_state-Read a p.wallet.ledger.payout q e.1 e.0) (λ _ q e. e.0) p (h, refl)

consider-IsGuarded :
    (policy : PayoutPolicy) (a : PayoutAnswers) (s : PayoutState)
    → Ends (Read s) (consider policy a s) (λ _. IsGuarded) IsGuarded
unfolding consider
consider-IsGuarded policy a s =
    Ends-if (Read s) (λ _. IsGuarded) IsGuarded (is_some s.pending || ltb a.now s.retry_at)
      (pure tt) _ (λ _ p h. h.0)
      λ idle p h.
        Ends-bind IsClean (λ _. IsClean) (λ _. IsGuarded) IsGuarded
          (in_wallet (recover a.recovered)) _
          (asked-IsClean (recover a.recovered) (recover-KeepsPayout a.recovered))
          (λ _.
            Ends-bind IsClean (λ _. IsClean) (λ _. IsGuarded) IsGuarded
              (in_wallet (await always a.balance)) _
              (asked-IsClean (await always a.balance) (await-KeepsPayout always a.balance))
              λ balance.
                Ends-if IsClean (λ _. IsGuarded) IsGuarded (not (due policy s a.now balance))
                  (pure tt) (attempt policy a s) (λ _. IsClean-IsGuarded)
                  (λ _. attempt-IsGuarded policy a s))
          p (h.1 (ground (arith, idle)))

pub automatic_payout-IsGuarded :
    (policy : PayoutPolicy) (a : PayoutAnswers)
    → Ends IsGuarded (automatic_payout policy a) (λ _. IsGuarded) IsGuarded
unfolding automatic_payout
automatic_payout-IsGuarded policy a =
    Ends-if IsGuarded (λ _. IsGuarded) IsGuarded a.busy (pure tt) _ (λ _ p h. h)
      λ _.
        Ends-bind IsGuarded (λ _. IsGuarded) (λ _. IsGuarded) IsGuarded (in_wallet (open_wallet a))
          _ (asked-IsGuarded (open_wallet a) (open_wallet-KeepsPayout a))
          λ _.
            Ends-bind IsGuarded Read (λ _. IsGuarded) IsGuarded (read_state a) (consider policy a)
              (read_state-Read a) (consider-IsGuarded policy a)

default-Read :
    (o : Option PayoutState) (p : Payer)
    → p.wallet.ledger.payout ≡ o
    → IsGuarded p
    → Read (saved_or_default o) p
default-Read (some s) p e h =
    (h, λ none_pending. omega (arith, h, ap (λ o. to_ℕ (is_pending o)) e, ap to_ℕ none_pending))
default-Read none p e h = (h, λ none_pending. omega (arith, h, ap (λ o. to_ℕ (is_pending o)) e))

read_or_default-Read : (a : PayoutAnswers) → Ends IsGuarded (read_or_default a) Read IsGuarded
unfolding read_or_default
read_or_default-Read a p h =
    Ends-if (λ q. IsGuarded q × (q.wallet.ledger.payout ≡ p.wallet.ledger.payout)) Read IsGuarded
      a.is_read (pure (saved_or_default p.wallet.ledger.payout)) _
      (λ _ q e. default-Read p.wallet.ledger.payout q e.1 e.0) (λ _ q e. e.0) p (h, refl)

pub pay-IsGuarded :
    (amount most : ℕ) (a : PayoutAnswers)
    → Ends IsGuarded (pay amount most a) (λ _. IsGuarded) IsGuarded
unfolding pay
pay-IsGuarded amount most a p h =
    Ends-if IsGuarded (λ _. IsGuarded) IsGuarded (ltb most amount) (raise payout_failed) _
      (λ _ q g. g)
      (λ _.
        Ends-bind IsGuarded (λ _. IsGuarded) (λ _. IsGuarded) IsGuarded (in_wallet (open_wallet a))
          _ (asked-IsGuarded (open_wallet a) (open_wallet-KeepsPayout a))
          λ _.
            Ends-bind IsGuarded (λ _. IsGuarded) (λ _. IsGuarded) IsGuarded
              (in_wallet (recover a.recovered)) _
              (asked-IsGuarded (recover a.recovered) (recover-KeepsPayout a.recovered))
              λ _.
                Ends-bind IsGuarded Read (λ _. IsGuarded) IsGuarded (read_or_default a)
                  (pay_unless_pending most a) (read_or_default-Read a)
                  λ s.
                    Ends-if (Read s) (λ _. IsGuarded) IsGuarded (is_some s.pending) _
                      (send_request most a s) (λ _ q r. r.0)
                      (λ e q r. send_request-IsGuarded most a s q (r.1 e)))
      _ h

-- ===== src/Payout/Steps.antt =====
-- Chains of steps of a payout (crates/geata/src/payments/payout.rs): what holds after each, on success and on error.
use geata.Common.{
  ◌≡◌, refl, ◌∙◌, Bool, true, false, not, some, Result, ok, err, arith, if◌then◌else◌,
}
use geata.Common.Exec.{continue, ◌>>=◌, unless}
use geata.Ledger.{
  Commit, answered, rolled_back, unseen, PayoutState, finish, open_ledger, save_payout,
}
use geata.Payments.Monad.{
  MintWallet, Answer, answer, failure, cancelled, CdkError, Collect, await, always, on_ledger,
  PaymentError, classify_error,
}
use geata.Payments.{Report, recover, finish_recovery}
use geata.Payout.{
  Payer, PayoutError, Payout, PayoutAnswers, with_wallet, in_wallet, open_wallet, save,
}

module _ {A : Type 0} where
  -- `Q` holds of an answer and the state with it, and `X` of the state that an error leaves.
  abbrev pub Post : (A → Payer → Type 0) → (Payer → Type 0) → Result PayoutError A × Payer → Type 0
  Post Q X (ok a, p) = Q a p
  Post Q X (err e, p) = X p

  abbrev pub Ends : (Payer → Type 0) → Payout A → (A → Payer → Type 0) → (Payer → Type 0) → Type 0
  Ends P m Q X = (p : Payer) → P p → Post Q X (m p)

  pub Post-weaken :
      (Q R : A → Payer → Type 0) (X : Payer → Type 0) (r : Result PayoutError A × Payer)
      → ((a : A) (q : Payer) → Q a q → R a q)
      → Post Q X r
      → Post R X r
  Post-weaken Q R X (ok a, q) f h = f a q h
  Post-weaken Q R X (err e, q) f h = h

module _ {A B : Type 0} where
  Post-continue :
      (Q : A → Payer → Type 0) (R : B → Payer → Type 0) (X : Payer → Type 0) (f : A → Payout B)
      (r : Result PayoutError A × Payer)
      → ((a : A) → Ends (Q a) (f a) R X)
      → Post Q X r
      → Post R X (continue r.0 f r.1)
  Post-continue Q R X f (ok a, p) next h = next a p h
  Post-continue Q R X f (err e, p) next h = h

  pub Ends-bind :
      (P : Payer → Type 0) (Q : A → Payer → Type 0) (R : B → Payer → Type 0) (X : Payer → Type 0)
      (m : Payout A) (f : A → Payout B)
      → Ends P m Q X
      → ((a : A) → Ends (Q a) (f a) R X)
      → Ends P (m >>= f) R X
  Ends-bind P Q R X m f first next p h = Post-continue Q R X f (m p) next (first p h)

module _ {A : Type 0} where
  pub Ends-if :
      (P : Payer → Type 0) (Q : A → Payer → Type 0) (X : Payer → Type 0) (b : Bool) (m n : Payout A)
      → ((b ≡ true) → Ends P m Q X)
      → ((b ≡ false) → Ends P n Q X)
      → Ends P (if b then m else n) Q X
  Ends-if P Q X true m n h k = h refl
  Ends-if P Q X false m n h k = k refl

-- The record of payouts and the sends are as they were.
abbrev pub Same : Payer → Payer → Type 0
Same p q = (q.sends ≡ p.sends) × (q.wallet.ledger.payout ≡ p.wallet.ledger.payout)

-- A call of the wallet that leaves the record of payouts alone.
abbrev pub KeepsPayout : {A : Type 0} → Collect A → Type 0
KeepsPayout m = (w : MintWallet) → (m w).1.ledger.payout ≡ w.ledger.payout

module _ {A B : Type 0} where
  continue-payout :
      (f : A → Collect B) (r : Result PaymentError A × MintWallet)
      → ((a : A) → KeepsPayout (f a))
      → (continue r.0 f r.1).1.ledger.payout ≡ r.1.ledger.payout
  continue-payout f (ok a, w) next = next a w
  continue-payout f (err e, w) next = refl

  bind-KeepsPayout :
      (m : Collect A) (f : A → Collect B)
      → KeepsPayout m
      → ((a : A) → KeepsPayout (f a))
      → KeepsPayout (m >>= f)
  bind-KeepsPayout m f first next w = continue-payout f (m w) next ∙ first w

unless-KeepsPayout : (b : Bool) (m : Collect (Unit {0})) → KeepsPayout m → KeepsPayout (unless b m)
unless-KeepsPayout true m h w = refl
unless-KeepsPayout false m h w = h w

pub await-KeepsPayout :
    {A : Type 0} (on_error : CdkError → PaymentError) (o : Answer A)
    → KeepsPayout (await on_error o)
unfolding await
await-KeepsPayout on_error (answer a) w = refl
await-KeepsPayout on_error (failure e) w = refl
await-KeepsPayout on_error cancelled w = refl

on_open-KeepsPayout : (c : Commit) → KeepsPayout (on_ledger (open_ledger c))
unfolding on_ledger open_ledger finish
on_open-KeepsPayout answered w = ground arith
on_open-KeepsPayout rolled_back w = ground arith
on_open-KeepsPayout unseen w = ground arith

pub open_wallet-KeepsPayout : (a : PayoutAnswers) → KeepsPayout (open_wallet a)
unfolding open_wallet
open_wallet-KeepsPayout a w =
    unless-KeepsPayout w.is_open _
      (bind-KeepsPayout (on_ledger (open_ledger a.ledger_opened)) _
        (on_open-KeepsPayout a.ledger_opened)
        λ _.
          bind-KeepsPayout (await always a.wallet_opened) _
            (await-KeepsPayout always a.wallet_opened) λ _ v. refl)
      w

finish_recovery-KeepsPayout : (r : Report) → KeepsPayout (finish_recovery r)
unfolding finish_recovery
finish_recovery-KeepsPayout r w = ground arith

pub recover-KeepsPayout : (o : Answer Report) → KeepsPayout (recover o)
unfolding recover
recover-KeepsPayout o w =
    unless-KeepsPayout (not w.needs_recovery) (await classify_error o >>= finish_recovery)
      (bind-KeepsPayout (await classify_error o) finish_recovery
        (await-KeepsPayout classify_error o) finish_recovery-KeepsPayout)
      w

module _ {A : Type 0} where
  -- What such a call keeps, it keeps for a payout.
  with_wallet-Same :
      (p : Payer) (r : Result PaymentError A × MintWallet) (Q X : Payer → Type 0)
      → r.1.ledger.payout ≡ p.wallet.ledger.payout
      → ((q : Payer) → Same p q → Q q)
      → ((q : Payer) → Same p q → X q)
      → Post (λ _. Q) X (with_wallet p r)
  with_wallet-Same p (ok a, w) Q X e f g = f (record p { wallet = w }) (refl, e)
  with_wallet-Same p (err x, w) Q X e f g = g (record p { wallet = w }) (refl, e)

  pub in_wallet-Same :
      (m : Collect A) (P Q X : Payer → Type 0)
      → KeepsPayout m
      → ((p q : Payer) → Same p q → P p → Q q)
      → ((p : Payer) → Q p → X p)
      → Ends P (in_wallet m) (λ _. Q) X
  in_wallet-Same m P Q X keeps next weak p h =
      with_wallet-Same p (m p.wallet) Q X (keeps p.wallet) (λ q same. next p q same h)
        (λ q same. weak q (next p q same h))

abbrev pub IsSaved : PayoutState → Payer → Payer → Type 0
IsSaved s p q = (q.sends ≡ p.sends) × (q.wallet.ledger.payout ≡ some s)

-- A write of the record: it is there on success, and there or not after an error.
pub save_finish :
    (c : Commit) (s : PayoutState) (p : Payer) (X : Payer → Type 0)
    → X p
    → X (record p {
      wallet = record p.wallet { ledger = record p.wallet.ledger { payout = some s } };
    })
    → Post (λ _. IsSaved s p) X (save c s p)
unfolding on_ledger save_payout finish
save_finish answered s p X h k = (refl, refl)
save_finish rolled_back s p X h k = h
save_finish unseen s p X h k = k

pub Post-state :
    (X : Payer → Type 0) (r : Result PayoutError (Unit {0}) × Payer) → Post (λ _. X) X r → X r.1
Post-state X (ok a, p) h = h
Post-state X (err e, p) h = h

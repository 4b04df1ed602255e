-- ===== src/Payments/Redeemed.antt =====
-- What `Payments::collect` of crates/geata/src/payments/mod.rs has seen when it lets a request through.
use geata.Common.{
  ℕ, ◌+◌, ◌-◌, ◌≤◌, ◌≡◌, refl, ap, ◌⊎◌, inl, inr, String, Bool, true, false, not, Option, none,
  some, List, arith, Result, ok, err, leb, ◌&&◌,
}
use geata.Common.Exec.{Exec, continue, lift, ◌>>=◌}
use geata.Ledger.{Database, LedgerError, Reservation, new, pending, claimed, mismatch, reserve}
use geata.Payments.Price.{PaymentPolicy}
use geata.Payments.Monad.{
  CdkError, PaymentError, MintWallet, Answer, Collect, classify_error, always, await, on_ledger,
  answer, failure, cancelled,
}
use geata.Payments.TokenId.{Bytes}
use geata.Payments.{
  Token, Transaction, Answers, ensure_valid, ensure_available, flag_recovery, settle_received,
  open_wallet, recover, check_proofs, token_value, claim_payment, redeem, resume, is_redeemed,
  reserve_payment, after_reservation, collect_token, validate_token, token_id, collect,
}

module _ {S E A B : Type 0} where
  continue-ok :
      (f : A → Exec S E B) (r : Result E A × S) {b : B} {u : S}
      → continue r.0 f r.1 ≡ (ok b, u)
      → (a : A) × (t : S) × (r ≡ (ok a, t)) × (f a t ≡ (ok b, u))
  continue-ok f (ok a, t) h = (a, t, refl, h)
  continue-ok f (err e, t) h = absurd (ground arith)

  -- What a chain that succeeded went through.
  bind-ok :
      (m : Exec S E A) (f : A → Exec S E B) (s : S) {b : B} {u : S}
      → (m >>= f) s ≡ (ok b, u)
      → (a : A) × (t : S) × (m s ≡ (ok a, t)) × (f a t ≡ (ok b, u))
  bind-ok m f s h = continue-ok f (m s) h

await-ok :
    {A : Type 0} (on_error : CdkError → PaymentError) (o : Answer A) (w v : MintWallet) (a : A)
    → await on_error o w ≡ (ok a, v)
    → o ≡ answer a
unfolding await
await-ok on_error (answer b) w v a h = ground arith
await-ok on_error (failure e) w v a h = absurd (ground arith)
await-ok on_error cancelled w v a h = absurd (ground arith)

-- The money is in: redeemed by this call, or by an earlier one of the same reservation.
abbrev pub IsPaid : PaymentPolicy → String → Answers → Type 0
IsPaid policy id a =
    ((n : ℕ) × (a.received ≡ answer n) × (policy.price ≤ n))
    ⊎ ((txs : List Transaction) × (a.transactions ≡ answer txs)
        × (is_redeemed policy id txs ≡ true))

-- The token is worth the price beyond the mint's fees.
abbrev pub IsWorth : PaymentPolicy → Token → Answers → Type 0
IsWorth policy token a =
    (fees : ℕ) × (value : ℕ) × (a.fees ≡ answer fees)
    × (token.value ≡ some value)
    × (fees + policy.price ≤ value)

ensure_available-ok : (b : Bool) (w v : MintWallet) → ensure_available b w ≡ (ok tt, v) → b ≡ true
ensure_available-ok true w v h = refl
ensure_available-ok false w v h = absurd (ground arith)

ensure_valid-ok : (b : Bool) (w v : MintWallet) → ensure_valid b w ≡ (ok tt, v) → b ≡ true
ensure_valid-ok true w v h = refl
ensure_valid-ok false w v h = absurd (ground arith)

token_value-ok :
    (o : Option ℕ) (w v : MintWallet) (n : ℕ) → token_value o w ≡ (ok n, v) → o ≡ some n
unfolding token_value
token_value-ok none w v n h = absurd (ground arith)
token_value-ok (some m) w v n h = ground arith

redeem-IsPaid :
    (policy : PaymentPolicy) (id : String) (a : Answers) (w v : MintWallet)
    → redeem policy id a w ≡ (ok tt, v)
    → IsPaid policy id a
unfolding redeem
redeem-IsPaid policy id a w v h =
    let (u, w1, h1, k1) =
      bind-ok (flag_recovery true)
        (λ _. await classify_error a.received >>= settle_received policy id a) w h in
    let (n, w2, h2, k2) =
      bind-ok (await classify_error a.received) (settle_received policy id a) w1 k1 in
    let (u3, w3, h3, k3) =
      bind-ok (ensure_available (leb policy.price n))
        (λ _. flag_recovery false >>= λ _. claim_payment a.claimed id) w2 k2 in
    let enough : leb policy.price n ≡ true = ensure_available-ok _ w2 w3 h3 in
    inl (n, await-ok classify_error a.received w1 w2 n h2, ground arith)

resume-IsPaid :
    (policy : PaymentPolicy) (id : String) (a : Answers) (b : Bool) (w v : MintWallet)
    → ((b ≡ true) → IsPaid policy id a)
    → resume policy id a b w ≡ (ok tt, v)
    → IsPaid policy id a
unfolding resume
resume-IsPaid policy id a true w v paid h = paid refl
resume-IsPaid policy id a false w v paid h = redeem-IsPaid policy id a w v h

after_reservation-IsPaid :
    (policy : PaymentPolicy) (id : String) (a : Answers) (r : Reservation) (w v : MintWallet)
    → after_reservation policy id a r w ≡ (ok tt, v)
    → IsPaid policy id a
unfolding after_reservation
after_reservation-IsPaid policy id a new w v h = redeem-IsPaid policy id a w v h
after_reservation-IsPaid policy id a pending w v h =
    let (txs, w1, h1, k1) =
      bind-ok (await classify_error a.transactions)
        (λ txs. resume policy id a (is_redeemed policy id txs)) w h in
    resume-IsPaid policy id a (is_redeemed policy id txs) w1 v
      (λ e. inr (txs, await-ok classify_error a.transactions w w1 txs h1, e)) k1
after_reservation-IsPaid policy id a claimed w v h = absurd (ground arith)
after_reservation-IsPaid policy id a mismatch w v h = absurd (ground arith)

check_proofs-IsWorth :
    (policy : PaymentPolicy) (token : Token) (a : Answers) (w v : MintWallet)
    → check_proofs policy token a w ≡ (ok tt, v)
    → IsWorth policy token a
unfolding check_proofs
check_proofs-IsWorth policy token a w v h =
    let last : ℕ → ℕ → Collect (Unit {0}) =
      λ fees value. ensure_valid (leb fees value && leb policy.price (value - fees)) in
    let worth : ℕ → Collect (Unit {0}) = λ fees. token_value token.value >>= last fees in
    let price : Unit {0} → Collect (Unit {0}) = λ _. await classify_error a.fees >>= worth in
    let proofs : Unit {0} → Collect (Unit {0}) = λ _. ensure_valid a.has_proofs >>= price in
    let keys : Unit {0} → Collect (Unit {0}) = λ _. await always a.keysets >>= proofs in
    let (u1, w1, h1, k1) = bind-ok (await classify_error a.dleq_verified) keys w h in
    let (u2, w2, h2, k2) = bind-ok (await always a.keysets) proofs w1 k1 in
    let (u3, w3, h3, k3) = bind-ok (ensure_valid a.has_proofs) price w2 k2 in
    let (fees, w4, h4, k4) = bind-ok (await classify_error a.fees) worth w3 k3 in
    let (value, w5, h5, k5) = bind-ok (token_value token.value) (last fees) w4 k4 in
    let enough : (leb fees value && leb policy.price (value - fees)) ≡ true =
      ensure_valid-ok _ w5 v k5 in
    (
      fees,
      value,
      await-ok classify_error a.fees w3 w4 fees h4,
      token_value-ok token.value w4 w5 value h5,
      ground arith,
    )

collect_token-IsPaid :
    (site : String) (policy : PaymentPolicy) (token : Token) (id : String) (a : Answers)
    (w v : MintWallet)
    → collect_token site policy token id a w ≡ (ok tt, v)
    → IsWorth policy token a × IsPaid policy id a
unfolding collect_token reserve_payment
collect_token-IsPaid site policy token id a w v h =
    let call : Database → Result LedgerError Reservation × Database =
      reserve a.reserved id site policy.price in
    let last : Unit {0} → Collect (Unit {0}) =
      λ _. on_ledger call >>= after_reservation policy id a in
    let checks : Unit {0} → Collect (Unit {0}) = λ _. check_proofs policy token a >>= last in
    let recovery : Unit {0} → Collect (Unit {0}) = λ _. recover a.recovered >>= checks in
    let (u1, w1, h1, k1) =
      bind-ok (ensure_available (not a.busy)) (λ _. open_wallet a >>= recovery) w h in
    let (u2, w2, h2, k2) = bind-ok (open_wallet a) recovery w1 k1 in
    let (u3, w3, h3, k3) = bind-ok (recover a.recovered) checks w2 k2 in
    let (u4, w4, h4, k4) = bind-ok (check_proofs policy token a) last w3 k3 in
    let (r, w5, h5, k5) = bind-ok (on_ledger call) (after_reservation policy id a) w4 k4 in
    (check_proofs-IsWorth policy token a w3 w4 h4, after_reservation-IsPaid policy id a r w5 v k5)

module _ (token_from_str : String → Option Token) (digest : Bytes → String) where
  -- A request is let through only with a token that passes `validate_token`, is worth the price
  -- beyond the fees that the mint answered, and has been redeemed: either this call received at
  -- least the price, or a completed transaction of at least the price bears the token's memo.
  pub collect-IsPaid :
      (site : String) (policy : PaymentPolicy) (encoded : String) (a : Answers) (w v : MintWallet)
      → collect token_from_str digest site policy encoded a w ≡ (ok tt, v)
      → (token : Token) × (validate_token token_from_str policy encoded ≡ ok token)
        × IsWorth policy token a
        × IsPaid policy (token_id digest token) a
  unfolding collect
  collect-IsPaid site policy encoded a w v h =
      let use_token : Token → Collect (Unit {0}) =
        λ token. collect_token site policy token (token_id digest token) a in
      let (token, w1, h1, k1) =
        bind-ok (lift (validate_token token_from_str policy encoded)) use_token w h in
      let paid : IsWorth policy token a × IsPaid policy (token_id digest token) a =
        collect_token-IsPaid site policy token (token_id digest token) a w1 v k1 in
      (token, ap (λ (p : Result PaymentError Token × MintWallet). p.0) h1, paid.0, paid.1)

-- ===== src/Payments/Admission.antt =====
-- How often `Payments::collect` of crates/geata/src/payments/mod.rs admits a request for one token.
use geata.Common.{
  ℕ, ◌+◌, ◌-◌, not, ◌≤◌, ◌≡◌, refl, String, Bool, true, false, Option, none, some, List, [], ◌∷◌,
  arith, Result, ok, err, is_ok, leb, if◌then◌else◌, ◌==◌, string_Key, ◌&&◌,
}
use geata.Common.Exec.{continue, lift, modify, unless, ◌>>=◌}
use geata.Ledger.{
  Database, Commit, Reservation, new, pending, claimed, mismatch, LedgerError, reserve, claim,
  open_ledger,
}
use geata.Ledger.Claims.{
  Op, opens, reserves, claims, after, granted, granted_once, is_claimed, is_granted, to_ℕ, to_ℕ-le,
}
use geata.Payments.Price.{PaymentPolicy}
use geata.Payments.Monad.{
  CdkError, PaymentError, MintWallet, Answer, Collect, classify_error, always, await, with_ledger,
  on_ledger, answer, failure, cancelled,
}
use geata.Payments.TokenId.{Bytes}
use geata.Payments.{
  flag_recovery, ensure_available, settle_received, reserve_payment, ensure_valid, Token, Report,
  Answers, open_wallet, recover, finish_recovery, check_proofs, claim_payment, redeem, resume,
  is_redeemed, token_value, after_reservation, collect_token, validate_token, token_id, collect,
}

module _ (id : String) where
  abbrev claimed_in : MintWallet → ℕ
  claimed_in w = to_ℕ (is_claimed id w.ledger)

  -- The call takes no claim back.
  abbrev Keeps : {A : Type 0} → Collect A → Type 0
  Keeps m = (w : MintWallet) → claimed_in w ≤ claimed_in (m w).1

  abbrev admitted_by : {A : Type 0} → String → Result PaymentError A → ℕ
  admitted_by j r = if j == id then to_ℕ (is_ok r) else 0

  -- A call for the token `j` succeeds only by a claim of a row that was not claimed.
  abbrev Claims : {A : Type 0} → String → Collect A → Type 0
  Claims j m = (w : MintWallet) → admitted_by j (m w).0 + claimed_in w ≤ claimed_in (m w).1

  after_continue-Keeps :
      {A B : Type 0} (w : MintWallet) (f : A → Collect B) (r : Result PaymentError A × MintWallet)
      → ((a : A) → Keeps (f a))
      → claimed_in w ≤ claimed_in r.1
      → claimed_in w ≤ claimed_in (continue r.0 f r.1).1
  after_continue-Keeps w f (ok a, v) k l = omega (arith, k a v)
  after_continue-Keeps w f (err e, v) k l = l

  Keeps-bind :
      {A B : Type 0} (m : Collect A) (f : A → Collect B)
      → Keeps m
      → ((a : A) → Keeps (f a))
      → Keeps (m >>= f)
  Keeps-bind m f h k w = after_continue-Keeps w f (m w) k (h w)

  after_continue-Claims :
      {A B : Type 0} (w : MintWallet) (j : String) (f : A → Collect B)
      (r : Result PaymentError A × MintWallet)
      → ((a : A) → Claims j (f a))
      → claimed_in w ≤ claimed_in r.1
      → admitted_by j (continue r.0 f r.1).0 + claimed_in w ≤ claimed_in (continue r.0 f r.1).1
  after_continue-Claims w j f (ok a, v) k l = omega (arith, k a v)
  after_continue-Claims w j f (err e, v) k l = ground arith

  Claims-bind :
      {A B : Type 0} (j : String) (m : Collect A) (f : A → Collect B)
      → Keeps m
      → ((a : A) → Claims j (f a))
      → Claims j (m >>= f)
  Claims-bind j m f h k w = after_continue-Claims w j f (m w) k (h w)

  await-Keeps :
      {A : Type 0} (on_error : CdkError → PaymentError) (a : Answer A) → Keeps (await on_error a)
  unfolding await
  await-Keeps on_error (answer a) w = omega arith
  await-Keeps on_error (failure e) w = omega arith
  await-Keeps on_error cancelled w = omega arith

  with_ledger-Keeps :
      {A : Type 0} (w : MintWallet) (r : Result LedgerError A × Database)
      → claimed_in w ≤ to_ℕ (is_claimed id r.1)
      → claimed_in w ≤ claimed_in (with_ledger w r).1
  with_ledger-Keeps w (ok a, db) l = l
  with_ledger-Keeps w (err e, db) l = l

  on_ledger-Keeps :
      {A : Type 0} (call : Database → Result LedgerError A × Database) (op : Op)
      → ((db : Database) → after op db ≡ (call db).1)
      → Keeps (on_ledger call)
  unfolding on_ledger
  on_ledger-Keeps call op same w =
      with_ledger-Keeps w (call w.ledger)
        (rw (← same w.ledger) (omega (arith, granted_once id op w.ledger)))

  unless-Keeps : (b : Bool) (m : Collect (Unit {0})) → Keeps m → Keeps (unless b m)
  unless-Keeps true m h w = omega arith
  unless-Keeps false m h w = h w

  open_wallet-Keeps : (a : Answers) → Keeps (open_wallet a)
  unfolding open_wallet
  open_wallet-Keeps a w =
      unless-Keeps w.is_open _
        (Keeps-bind (on_ledger (open_ledger a.ledger_opened))
          (λ _. await always a.wallet_opened >>= λ _.
            modify (λ v. record v { is_open = true; needs_recovery = true }))
          (on_ledger-Keeps (open_ledger a.ledger_opened) (opens a.ledger_opened)
            (unfold after in λ db. refl))
          (λ _.
            Keeps-bind (await always a.wallet_opened)
              (λ _. modify (λ v. record v { is_open = true; needs_recovery = true }))
              (await-Keeps always a.wallet_opened) (λ _ v. omega arith)))
        w

  recover-Keeps : (a : Answer Report) → Keeps (recover a)
  unfolding recover
  recover-Keeps a w =
      unless-Keeps (not w.needs_recovery) _
        (Keeps-bind (await classify_error a) finish_recovery (await-Keeps classify_error a)
          (λ r v. ground arith))
        w

  ensure_valid-Keeps : (b : Bool) → Keeps (ensure_valid b)
  ensure_valid-Keeps true w = omega arith
  ensure_valid-Keeps false w = omega arith

  token_value-Keeps : (o : Option ℕ) → Keeps (token_value o)
  unfolding token_value
  token_value-Keeps none w = omega arith
  token_value-Keeps (some v) w = omega arith

  check_proofs-Keeps :
      (policy : PaymentPolicy) (token : Token) (a : Answers) → Keeps (check_proofs policy token a)
  unfolding check_proofs
  check_proofs-Keeps policy token a =
      Keeps-bind (await classify_error a.dleq_verified) _
        (await-Keeps classify_error a.dleq_verified)
        λ _. Keeps-bind (await always a.keysets) _ (await-Keeps always a.keysets) λ _.
          Keeps-bind (ensure_valid a.has_proofs) _ (ensure_valid-Keeps a.has_proofs) λ _.
            Keeps-bind (await classify_error a.fees) _ (await-Keeps classify_error a.fees) λ fees.
              Keeps-bind (token_value token.value) _ (token_value-Keeps token.value)
                λ value. ensure_valid-Keeps (leb fees value && leb policy.price (value - fees))

  -- The answer of `MintWallet::claim` to what the ledger answered.
  abbrev checked :
      MintWallet → Result LedgerError Bool × Database → Result PaymentError (Unit {0}) × MintWallet
  checked w r = let s = with_ledger w r in continue s.0 ensure_valid s.1

  checked-Claims :
      (w : MintWallet) (j : String) (r : Result LedgerError Bool × Database)
      → (if j == id then (if is_granted r.0 then 1 else 0) else 0) + claimed_in w
        ≤ to_ℕ (is_claimed id r.1)
      → admitted_by j (checked w r).0 + claimed_in w ≤ claimed_in (checked w r).1
  checked-Claims w j (ok true, db) l = l
  checked-Claims w j (ok false, db) l = l
  checked-Claims w j (err e, db) l = l

  claim_payment-Claims : (c : Commit) (j : String) → Claims j (claim_payment c j)
  unfolding claim_payment on_ledger
  claim_payment-Claims c j w =
      checked-Claims w j (claim c j w.ledger)
        (unfold after granted in granted_once id (claims c j) w.ledger)

  ensure_available-Keeps : (b : Bool) → Keeps (ensure_available b)
  ensure_available-Keeps true w = omega arith
  ensure_available-Keeps false w = omega arith

  settle_received-Claims :
      (policy : PaymentPolicy) (j : String) (a : Answers) (received : ℕ)
      → Claims j (settle_received policy j a received)
  unfolding settle_received
  settle_received-Claims policy j a received =
      let rest : Unit {0} → Collect (Unit {0}) = λ _. claim_payment a.claimed j in
      Claims-bind j (ensure_available (leb policy.price received))
        (λ _. flag_recovery false >>= rest) (ensure_available-Keeps (leb policy.price received))
        λ _.
          Claims-bind j (flag_recovery false) rest (λ w. omega arith)
            λ _. claim_payment-Claims a.claimed j

  redeem-Claims : (policy : PaymentPolicy) (j : String) (a : Answers) → Claims j (redeem policy j a)
  unfolding redeem
  redeem-Claims policy j a =
      let receive : Unit {0} → Collect (Unit {0}) =
        λ _. await classify_error a.received >>= settle_received policy j a in
      Claims-bind j (flag_recovery true) receive (λ w. omega arith)
        λ _.
          Claims-bind j (await classify_error a.received) (settle_received policy j a)
            (await-Keeps classify_error a.received) (settle_received-Claims policy j a)

  resume-Claims :
      (policy : PaymentPolicy) (j : String) (a : Answers) (b : Bool)
      → Claims j (resume policy j a b)
  unfolding resume
  resume-Claims policy j a true = claim_payment-Claims a.claimed j
  resume-Claims policy j a false = redeem-Claims policy j a

  after_reservation-Claims :
      (policy : PaymentPolicy) (j : String) (a : Answers) (r : Reservation)
      → Claims j (after_reservation policy j a r)
  unfolding after_reservation
  after_reservation-Claims policy j a new = redeem-Claims policy j a
  after_reservation-Claims policy j a pending =
      Claims-bind j (await classify_error a.transactions)
        (λ txs. resume policy j a (is_redeemed policy j txs))
        (await-Keeps classify_error a.transactions)
        λ txs. resume-Claims policy j a (is_redeemed policy j txs)
  after_reservation-Claims policy j a claimed = λ w. ground arith
  after_reservation-Claims policy j a mismatch = λ w. ground arith

  reserve_payment-Claims :
      (site : String) (policy : PaymentPolicy) (j : String) (a : Answers)
      → Claims j (reserve_payment site policy j a)
  unfolding reserve_payment
  reserve_payment-Claims site policy j a =
      let call : Database → Result LedgerError Reservation × Database =
        reserve a.reserved j site policy.price in
      Claims-bind j (on_ledger call) (after_reservation policy j a)
        (on_ledger-Keeps call (reserves a.reserved j site policy.price)
          (unfold after in λ db. refl))
        (after_reservation-Claims policy j a)

  collect_token-Claims :
      (site : String) (policy : PaymentPolicy) (token : Token) (j : String) (a : Answers)
      → Claims j (collect_token site policy token j a)
  unfolding collect_token
  collect_token-Claims site policy token j a =
      let last : Unit {0} → Collect (Unit {0}) = λ _. reserve_payment site policy j a in
      let checks : Unit {0} → Collect (Unit {0}) = λ _. check_proofs policy token a >>= last in
      let recovery : Unit {0} → Collect (Unit {0}) = λ _. recover a.recovered >>= checks in
      Claims-bind j (ensure_available (not a.busy)) (λ _. open_wallet a >>= recovery)
        (ensure_available-Keeps (not a.busy))
        λ _. Claims-bind j (open_wallet a) recovery (open_wallet-Keeps a) λ _.
          Claims-bind j (recover a.recovered) checks (recover-Keeps a.recovered) λ _.
            Claims-bind j (check_proofs policy token a) last (check_proofs-Keeps policy token a)
              λ _. reserve_payment-Claims site policy j a

-- One thing that happens to a mint's wallet: a call of `collect`, or a restart of the process, which
-- forgets all but the ledger.
pub data Event : Type 0 where
  collects : String → PaymentPolicy → String → Answers → Event
  restarts : Event

module _ (token_from_str : String → Option Token) (digest : Bytes → String) where
  unfoldable pub next_wallet : Event → MintWallet → MintWallet
  next_wallet (collects site policy encoded a) w =
      (collect token_from_str digest site policy encoded a w).1
  next_wallet restarts w = record w { is_open = false; needs_recovery = false }

  abbrev accepts_id : String → Result PaymentError Token → Result PaymentError (Unit {0}) → ℕ
  accepts_id id (ok token) result = if token_id digest token == id then to_ℕ (is_ok result) else 0
  accepts_id id (err e) result = 0

  -- 1 if the event lets a request through with a token of that identity.
  unfoldable pub accepts : String → Event → MintWallet → ℕ
  accepts id (collects site policy encoded a) w =
      accepts_id id (validate_token token_from_str policy encoded)
        (collect token_from_str digest site policy encoded a w).0
  accepts id restarts w = 0

  -- How many requests a history lets through with a token of that identity.
  unfoldable pub accepted : String → MintWallet → List Event → ℕ
  accepted id w [] = 0
  accepted id w (e ∷ es) = accepts id e w + accepted id (next_wallet e w) es

  collect_once :
      (id site : String) (policy : PaymentPolicy) (a : Answers) (w : MintWallet)
      (parsed : Result PaymentError Token)
      → let r =
          (lift parsed >>= λ token. collect_token site policy token (token_id digest token) a) w in
        accepts_id id parsed r.0 + to_ℕ (is_claimed id w.ledger) ≤ to_ℕ (is_claimed id r.1.ledger)
  collect_once id site policy a w (ok token) =
      collect_token-Claims id site policy token (token_id digest token) a w
  collect_once id site policy a w (err e) = omega arith

  accepts_once :
      (id : String) (e : Event) (w : MintWallet)
      → accepts id e w + to_ℕ (is_claimed id w.ledger)
        ≤ to_ℕ (is_claimed id (next_wallet e w).ledger)
  unfolding accepts next_wallet collect
  accepts_once id (collects site policy encoded a) w =
      collect_once id site policy a w (validate_token token_from_str policy encoded)
  accepts_once id restarts w = omega arith

  accepted-le :
      (id : String) (w : MintWallet) (es : List Event)
      → accepted id w es + to_ℕ (is_claimed id w.ledger) ≤ 1
  unfolding accepted
  accepted-le id w [] = to_ℕ-le (is_claimed id w.ledger)
  accepted-le id w (e ∷ es) =
      omega (arith, accepts_once id e w, accepted-le id (next_wallet e w) es)

  -- Over any history of calls of `collect` and restarts, whatever the mint, the wallet library and
  -- the disk answer and wherever calls are cancelled, at most one request is let through with a
  -- token of one identity, and none if the ledger had it claimed before.
  pub collected_once :
      (id : String) (w : MintWallet) (es : List Event)
      → (accepted id w es ≤ 1) × (is_claimed id w.ledger ≡ true → accepted id w es ≡ 0)
  collected_once id w es = ground (arith, accepted-le id w es)

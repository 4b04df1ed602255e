-- ===== src/Lightning/Steps.antt =====
-- Concurrent settlements: the requests of crates/geata/src/payments/lightning/mod.rs, l402.rs and maintenance.rs
-- as steps that interleave. A settlement is verified in one step and claims in a later one, a transaction.
use geata.Common.{
  ℕ, ◌≡◌, refl, zero, suc, ◌+◌, ◌≤◌, Bool, true, false, Option, none, some, List, [], ◌∷◌, Result,
  ◌==◌, if◌then◌else◌, is_ok,
}
use geata.Common.Text.{Text, text_Key}
use geata.Lightning.Policies.{Policy}
use geata.Ledger.{Commit}
use geata.Ledger.Claims.{to_ℕ}
use geata.Lightning.{
  Invoice, Payment, LightningError, Settlements, verify, claim, prune, claim_verified, settle,
}
use geata.Lightning.L402.{Crypto, verify_credential, claim_granted, mint_l402, settle_l402}

-- A settlement between its verification and its claim.
pub record Verified : Type 0 where
  pub policy : Policy
  pub is_l402 : Bool
  pub key : Text
  pub until : ℕ

pub record Tables : Type 0 where
  pub db : Settlements
  pub pending : List Verified

-- `settle` and `settle_l402` up to the claim, at the time that they read; the claim of the settlement that
-- waits at a position, with the answer of `collect_cashu_invoice` where it is asked; the minting of a
-- credential; and a pruning.
pub data Event : Type 0 where
  verifies : Policy → Text → Text → ℕ → Event
  presents : Policy → Text → Text → ℕ → Event
  claims : ℕ → Result LightningError (Unit {0}) → Commit → ℕ → Event
  mints : Policy → Text → Text → Invoice → Text → Text → Commit → Event
  prunes : ℕ → Event

-- The clocks that the transactions of claims and prunings read do not go back.
abbrev pub Ordered : ℕ → List Event → Type 0
Ordered t [] = Unit
Ordered t (verifies _ _ _ _ ∷ es) = Ordered t es
Ordered t (presents _ _ _ _ ∷ es) = Ordered t es
Ordered t (claims _ _ _ now ∷ es) = (t ≤ now) × Ordered now es
Ordered t (mints _ _ _ _ _ _ _ ∷ es) = Ordered t es
Ordered t (prunes now ∷ es) = (t ≤ now) × Ordered now es

abbrev pub pending_at : ℕ → List Verified → Option Verified
pending_at i [] = none
pending_at zero (v ∷ vs) = some v
pending_at (suc i) (v ∷ vs) = pending_at i vs

abbrev pub without : ℕ → List Verified → List Verified
without i [] = []
without zero (v ∷ vs) = vs
without (suc i) (v ∷ vs) = v ∷ without i vs

abbrev pub with_verified : Policy → Bool → Option (Text × ℕ) → List Verified → List Verified
with_verified policy is_l402 none pending = pending
with_verified policy is_l402 (some (key, until)) pending =
    record { policy = policy; is_l402 = is_l402; key = key; until = until } ∷ pending

module _ (parse : Text → Option Invoice) (decode : Text → Option Payment)
    (hash_of : Text → Option Text) (crypto : Crypto) where
  -- The rest of `settle`, or of `settle_l402`.
  abbrev pub claim_pending :
      Verified
      → Result LightningError (Unit {0})
      → Commit
      → ℕ
      → Settlements
      → Result LightningError (Unit {0}) × Settlements
  claim_pending v collected c now db =
      if v.is_l402
      then claim_granted crypto v.policy collected c now (some (v.key, v.until)) db
      else claim c now v.key v.until db

  abbrev pub after_claim :
      Result LightningError (Unit {0}) → Commit → ℕ → Option Verified → Settlements → Settlements
  after_claim collected c now none db = db
  after_claim collected c now (some v) db = (claim_pending v collected c now db).1

  unfoldable pub after : Event → Tables → Tables
  after (verifies policy hash encoded time) s = record s {
    pending =
        with_verified policy false (verify parse decode hash_of policy hash encoded time) s.pending;
  }
  after (presents policy hash encoded time) s = record s {
    pending =
        with_verified policy true (verify_credential crypto policy hash encoded time s.db.roots)
          s.pending;
  }
  after (claims i collected c now) s = record {
    db = after_claim collected c now (pending_at i s.pending) s.db;
    pending = without i s.pending;
  }
  after (mints policy hash invoice parsed key random c) s = record s {
    db = (mint_l402 crypto policy hash invoice parsed key random c s.db).1;
  }
  after (prunes now) s = record s { db = prune now s.db }

  abbrev pub claimed :
      Text → Result LightningError (Unit {0}) → Commit → ℕ → Option Verified → Settlements → ℕ
  claimed k collected c now none db = 0
  claimed k collected c now (some v) db =
      if v.key == k then to_ℕ (is_ok (claim_pending v collected c now db).0) else 0

  -- 1 if the event is a claim for a payment of that key and succeeds.
  unfoldable pub accepts : Text → Event → Tables → ℕ
  accepts k (verifies policy hash encoded time) s = 0
  accepts k (presents policy hash encoded time) s = 0
  accepts k (claims i collected c now) s = claimed k collected c now (pending_at i s.pending) s.db
  accepts k (mints policy hash invoice parsed key random c) s = 0
  accepts k (prunes now) s = 0

  unfoldable pub accepted : Text → Tables → List Event → ℕ
  accepted k s [] = 0
  accepted k s (e ∷ es) = accepts k e s + accepted k (after e s) es

  -- A settlement that nothing comes between is its two steps.
  settle-after :
      (policy : Policy) (hash encoded : Text) (time : ℕ)
      (collected : Result LightningError (Unit {0})) (c : Commit) (now : ℕ) (db : Settlements)
      → (after
          (claims 0 collected c now)
          (after (verifies policy hash encoded time) (record { db = db; pending = [] }))).db
        ≡ (settle parse decode hash_of policy hash encoded time c now db).1
  unfolding after settle
  settle-after policy hash encoded time collected c now db =
      go (verify parse decode hash_of policy hash encoded time)
    where
      go :
          (o : Option (Text × ℕ))
          → after_claim collected c now (pending_at 0 (with_verified policy false o [])) db
            ≡ (claim_verified parse decode hash_of c now o db).1
      go none = refl
      go (some (key, until)) = refl

  settle_l402-after :
      (policy : Policy) (hash encoded : Text) (time : ℕ)
      (collected : Result LightningError (Unit {0})) (c : Commit) (now : ℕ) (db : Settlements)
      → (after
          (claims 0 collected c now)
          (after (presents policy hash encoded time) (record { db = db; pending = [] }))).db
        ≡ (settle_l402 crypto policy hash encoded time collected c now db).1
  unfolding after settle_l402
  settle_l402-after policy hash encoded time collected c now db =
      go (verify_credential crypto policy hash encoded time db.roots)
    where
      go :
          (o : Option (Text × ℕ))
          → after_claim collected c now (pending_at 0 (with_verified policy true o [])) db
            ≡ (claim_granted crypto policy collected c now o db).1
      go none = refl
      go (some (key, until)) = refl

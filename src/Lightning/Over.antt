-- ===== src/Lightning/Over.antt =====
-- Claims of one payment's settlements, once that payment is spent or its time is over: `claim` of
-- crates/geata/src/payments/lightning/mod.rs.
use geata.Common.{
  ℕ, ◌≡◌, ◌≤◌, refl, ap, sym, subst, ◌∙◌, ◌⊎◌, inl, inr, true, false, Option, none, some, leb, ◌==◌,
  if◌then◌else◌, is_ok, is_some, arith, Result, ok, err, Bool-cases,
}
use geata.Common.Text.{Text, text_Key}
use geata.Lightning.Policies.{Policy, mint_of}
use geata.Common.Map.{get}
use geata.Ledger.{Commit}
use geata.Ledger.Claims.{to_ℕ}
use geata.Lightning.Spent.{claim-get, claim-refused, claim-kept}
use geata.Lightning.{Invoice, Payment, LightningError, Settlements, claim}
use geata.Lightning.L402.{Crypto, claim_granted}
use geata.Lightning.Ends.{kept_until}
use geata.Lightning.Steps.{Verified, claim_pending, after_claim, claimed}

-- A claim whose time is over is refused and changes nothing.
claim-late :
    (c : Commit) (now : ℕ) (key : Text) (until : ℕ) (db : Settlements)
    → until ≤ now
    → (is_ok (claim c now key until db).0 ≡ false) × ((claim c now key until db).1 ≡ db)
unfolding claim
claim-late c now key until db h =
    let late : leb until now ≡ true = ground arith in rw late (refl, refl)

module _ (k : Text) where
  -- Whether a run answers with success for the key.
  abbrev counted : Text → Result LightningError (Unit {0}) × Settlements → ℕ
  counted key r = if key == k then to_ℕ (is_ok r.0) else 0

  refused-counted :
      (key : Text) (r : Result LightningError (Unit {0}) × Settlements)
      → (key ≡ k → is_ok r.0 ≡ false)
      → counted key r ≡ 0
  refused-counted key r h = elim (Bool-cases (key == k)) [
    | inl e ↦ ground (arith, e, h ((text_Key.same_iff key k).0 e))
    | inr e ↦ ground (arith, e)
  ]

module _ (k : Text) (end : ℕ) where
  -- The payment was spent and is still kept, or no claim of it can succeed any more.
  abbrev pub IsOver : ℕ → Settlements → Type 0
  IsOver t db = (get k db.spent ≡ some (kept_until end)) ⊎ (kept_until end ≤ t)

  -- A settlement of the key that waits is to be kept until the key's end.
  abbrev pub IsKept : Verified → Type 0
  IsKept v = v.key ≡ k → v.until ≡ kept_until end

  claim-IsOver :
      (c : Commit) (now : ℕ) (key : Text) (until : ℕ) (db : Settlements)
      → (key ≡ k → until ≡ kept_until end)
      → IsOver now db
      → (counted k key (claim c now key until db) ≡ 0) × IsOver now (claim c now key until db).1
  claim-IsOver c now key until db kept (inr late) = (
    refused-counted k key (claim c now key until db)
        (λ e. (claim-late c now key until db (omega (arith, kept e, late))).0),
    inr late,
  )
  claim-IsOver c now key until db kept (inl row) = (
    refused-counted k key (claim c now key until db)
        (λ e. claim-refused c now key until (kept_until end) db (ap (λ x. get x db.spent) e ∙ row)),
    inl (claim-get c now key k until (kept_until end) db row),
  )

  claim-once :
      (c : Commit) (now : ℕ) (key : Text) (until : ℕ) (db : Settlements)
      → (key ≡ k → until ≡ kept_until end)
      → (counted k key (claim c now key until db) ≡ 0) ⊎ IsOver now (claim c now key until db).1
  claim-once c now key until db kept = elim (Bool-cases (key == k)) [
    | inr e ↦ inl (ground (arith, e))
    | inl e ↦
        let same : key ≡ k = (text_Key.same_iff key k).0 e in
        elim (claim-kept c now key until db) [
          | inl refused ↦ inl (ground (arith, e, refused))
          | inr row ↦ inr (
              inl (
                subst (λ x. get x (claim c now key until db).1.spent ≡ some (kept_until end)) same
                  (row ∙ ap some (kept same))))
        ]
  ]

module _ (parse : Text → Option Invoice) (decode : Text → Option Payment)
    (hash_of : Text → Option Text) (crypto : Crypto) where
  abbrev run :
      Verified
      → Result LightningError (Unit {0})
      → Commit
      → ℕ
      → Settlements
      → Result LightningError (Unit {0}) × Settlements
  run = claim_pending parse decode hash_of crypto

  granted-cases :
      (policy : Policy) (collected : Result LightningError (Unit {0})) (c : Commit) (now : ℕ)
      (key : Text) (until : ℕ) (db : Settlements)
      → (claim_granted crypto policy collected c now (some (key, until)) db
          ≡ claim c now key until db)
        ⊎ ((is_ok (claim_granted crypto policy collected c now (some (key, until)) db).0 ≡ false)
            × ((claim_granted crypto policy collected c now (some (key, until)) db).1 ≡ db))
  granted-cases policy (err e) c now key until db =
      elim (Bool-cases (is_some (mint_of policy.receiver))) [
        | inl m ↦ inr (rw m (refl, refl))
        | inr m ↦ inl (rw m refl)
      ]
  granted-cases policy (ok tt) c now key until db =
      elim (Bool-cases (is_some (mint_of policy.receiver))) [
        | inl m ↦ inl (rw m refl)
        | inr m ↦ inl (rw m refl)
      ]

  -- The rest of a settlement is its claim, or it is refused and changes nothing.
  run-cases :
      (v : Verified) (collected : Result LightningError (Unit {0})) (c : Commit) (now : ℕ)
      (db : Settlements)
      → (run v collected c now db ≡ claim c now v.key v.until db)
        ⊎ ((is_ok (run v collected c now db).0 ≡ false) × ((run v collected c now db).1 ≡ db))
  run-cases v collected c now db = elim (Bool-cases v.is_l402) [
    | inl e ↦ rw e (granted-cases v.policy collected c now v.key v.until db)
    | inr e ↦ inl (rw e refl)
  ]

  module _ (k : Text) (end : ℕ) where
    pub claimed-IsOver :
        (o : Option Verified) (collected : Result LightningError (Unit {0})) (c : Commit) (now : ℕ)
        (db : Settlements)
        → ((v : Verified) → o ≡ some v → IsKept k end v)
        → IsOver k end now db
        → (claimed parse decode hash_of crypto k collected c now o db ≡ 0)
          × IsOver k end now (after_claim parse decode hash_of crypto collected c now o db)
    claimed-IsOver none collected c now db kept h = (refl, h)
    claimed-IsOver (some v) collected c now db kept h = elim (run-cases v collected c now db) [
      | inl e ↦
          subst (λ r. (counted k v.key r ≡ 0) × IsOver k end now r.1) (sym e)
            (claim-IsOver k end c now v.key v.until db (kept v refl) h)
      | inr refused ↦ (
        refused-counted k v.key (run v collected c now db) (λ _. refused.0),
        subst (IsOver k end now) (sym refused.1) h,
      )
    ]

    pub claimed-once :
        (o : Option Verified) (collected : Result LightningError (Unit {0})) (c : Commit) (now : ℕ)
        (db : Settlements)
        → ((v : Verified) → o ≡ some v → IsKept k end v)
        → (claimed parse decode hash_of crypto k collected c now o db ≡ 0)
          ⊎ IsOver k end now (after_claim parse decode hash_of crypto collected c now o db)
    claimed-once none collected c now db kept = inl refl
    claimed-once (some v) collected c now db kept = elim (run-cases v collected c now db) [
      | inl e ↦
          subst (λ r. (counted k v.key r ≡ 0) ⊎ IsOver k end now r.1) (sym e)
            (claim-once k end c now v.key v.until db (kept v refl))
      | inr refused ↦ inl (refused-counted k v.key (run v collected c now db) (λ _. refused.0))
    ]

    pub claimed-le :
        (o : Option Verified) (collected : Result LightningError (Unit {0})) (c : Commit) (now : ℕ)
        (db : Settlements)
        → claimed parse decode hash_of crypto k collected c now o db ≤ 1
    claimed-le none collected c now db = omega arith
    claimed-le (some v) collected c now db = ground arith

-- ===== src/Lightning/Once.antt =====
-- One settlement for each payment, whatever interleaves: `settle` of
-- crates/geata/src/payments/lightning/mod.rs, `settle_l402` of l402.rs and `prune` of maintenance.rs.
use geata.Common.{
  ℕ, zero, suc, ◌≡◌, ◌≤◌, refl, ap, sym, subst, ◌∙◌, inl, inr, Bool, true, false, Option, none,
  some, List, [], ◌∷◌, ltb, arith, Bool-cases, All,
}
use geata.Common.Text.{Text, text_Key}
use geata.Lightning.Policies.{Policy}
use geata.Common.Map.{get}
use geata.Ledger.{Commit}
use geata.Lightning.Spent.{get-retain_live}
use geata.Lightning.{Invoice, Payment, Settlements, verify, prune}
use geata.Lightning.L402.{Crypto, verify_credential, mint_l402, store_root}
use geata.Lightning.Ends.{EndsAt, RootEnds, kept_until, verify-kept, verify_credential-kept}
use geata.Lightning.Steps.{
  Verified, Tables, Event, verifies, presents, claims, mints, prunes, Ordered, pending_at, without,
  with_verified, after, accepts, accepted,
}
use geata.Lightning.Over.{IsOver, IsKept, claimed-IsOver, claimed-once, claimed-le}

module _ (parse : Text → Option Invoice) (decode : Text → Option Payment)
    (hash_of : Text → Option Text) (crypto : Crypto) (k : Text) (end : ℕ) where
  -- What is supposed of the invoices and the credentials of the key that the requests show.
  abbrev pub Given : Event → Tables → Type 0
  Given (verifies policy _ _ _) s = EndsAt parse decode hash_of k end policy
  Given (presents policy _ encoded _) s = RootEnds crypto k end policy encoded s.db.roots
  Given (claims _ _ _ _) s = Unit
  Given (mints _ _ _ _ _ _ _) s = Unit
  Given (prunes _) s = Unit

  abbrev pub GivenAll : Tables → List Event → Type 0
  GivenAll s [] = Unit
  GivenAll s (e ∷ es) = Given e s × GivenAll (after parse decode hash_of crypto e s) es

  pending_at-IsKept :
      (i : ℕ) (vs : List Verified)
      → All (IsKept k end) vs
      → (v : Verified) → pending_at i vs ≡ some v
      → IsKept k end v
  pending_at-IsKept i [] h v e = absurd (ground arith)
  pending_at-IsKept zero (w ∷ vs) h v e = subst (IsKept k end) (option_inj e) h.0
    where
      option_inj : some w ≡ some v → w ≡ v
      option_inj e = cc
  pending_at-IsKept (suc i) (w ∷ vs) h v e = pending_at-IsKept i vs h.1 v e

  without-IsKept :
      (i : ℕ) (vs : List Verified) → All (IsKept k end) vs → All (IsKept k end) (without i vs)
  without-IsKept i [] h = tt
  without-IsKept zero (w ∷ vs) h = h.1
  without-IsKept (suc i) (w ∷ vs) h = (h.0, without-IsKept i vs h.1)

  with_verified-IsKept :
      (policy : Policy) (b : Bool) (o : Option (Text × ℕ)) (vs : List Verified)
      → ((until : ℕ) → o ≡ some (k, until) → until ≡ kept_until end)
      → All (IsKept k end) vs
      → All (IsKept k end) (with_verified policy b o vs)
  with_verified-IsKept policy b none vs bound h = h
  with_verified-IsKept policy b (some (key, until)) vs bound h =
      (λ e. bound until (ap (λ x. some (x, until)) e), h)

  abbrev step : Event → Tables → Tables
  step = after parse decode hash_of crypto

  after-IsKept :
      (e : Event) (s : Tables)
      → Given e s
      → All (IsKept k end) s.pending
      → All (IsKept k end) (step e s).pending
  unfolding after
  after-IsKept (verifies policy hash encoded time) s g h =
      with_verified-IsKept policy false (verify parse decode hash_of policy hash encoded time)
        s.pending
        (λ until v. verify-kept parse decode hash_of k end policy hash encoded time until g v) h
  after-IsKept (presents policy hash encoded time) s g h =
      with_verified-IsKept policy true
        (verify_credential crypto policy hash encoded time s.db.roots) s.pending
        (λ until v.
          verify_credential-kept crypto k end policy hash encoded time until s.db.roots g v)
        h
  after-IsKept (claims i collected c now) s g h = without-IsKept i s.pending h
  after-IsKept (mints policy hash invoice parsed key random c) s g h = h
  after-IsKept (prunes now) s g h = h

  prune-IsOver :
      (t now : ℕ) (db : Settlements) → t ≤ now → IsOver k end t db → IsOver k end now (prune now db)
  unfolding prune
  prune-IsOver t now db le (inr late) = inr (omega (arith, late, le))
  prune-IsOver t now db le (inl row) = elim (Bool-cases (ltb now (kept_until end))) [
    | inl e ↦ inl (get-retain_live k now (kept_until end) db.spent row (ground (arith, e)))
    | inr e ↦ inr (ground (arith, e))
  ]

  -- A minting leaves the spent payments as they are.
  mint_l402-spent :
      (policy : Policy) (hash invoice : Text) (parsed : Invoice) (key random : Text) (c : Commit)
      (db : Settlements)
      → (mint_l402 crypto policy hash invoice parsed key random c db).1.spent ≡ db.spent
  unfolding mint_l402 store_root
  mint_l402-spent policy hash invoice parsed key random c db = ground arith

  later_IsOver : (t now : ℕ) (db : Settlements) → t ≤ now → IsOver k end t db → IsOver k end now db
  later_IsOver t now db le (inl row) = inl row
  later_IsOver t now db le (inr late) = inr (omega (arith, late, le))

  minted_IsOver :
      (t : ℕ) (policy : Policy) (hash invoice : Text) (parsed : Invoice) (key random : Text)
      (c : Commit) (db : Settlements)
      → IsOver k end t db
      → IsOver k end t (mint_l402 crypto policy hash invoice parsed key random c db).1
  minted_IsOver t policy hash invoice parsed key random c db (inr late) = inr late
  minted_IsOver t policy hash invoice parsed key random c db (inl row) =
      inl (ap (get k) (mint_l402-spent policy hash invoice parsed key random c db) ∙ row)

  accepted-zero :
      (es : List Event) (s : Tables) (t : ℕ)
      → Ordered t es
      → GivenAll s es
      → All (IsKept k end) s.pending
      → IsOver k end t s.db
      → accepted parse decode hash_of crypto k s es ≡ 0
  unfolding accepted accepts
  accepted-zero [] s t o g p h = refl
  accepted-zero (verifies policy hash encoded time ∷ es) s t o g p h =
      let e = verifies policy hash encoded time in
      omega
        (arith, accepted-zero es (step e s) t o g.1 (after-IsKept e s g.0 p) (unfold after in h))
  accepted-zero (presents policy hash encoded time ∷ es) s t o g p h =
      let e = presents policy hash encoded time in
      omega
        (arith, accepted-zero es (step e s) t o g.1 (after-IsKept e s g.0 p) (unfold after in h))
  accepted-zero (claims i collected c now ∷ es) s t o g p h =
      let e = claims i collected c now in
      let r =
        claimed-IsOver parse decode hash_of crypto k end (pending_at i s.pending) collected c now
          s.db (pending_at-IsKept i s.pending p) (later_IsOver t now s.db o.0 h) in
      omega (
        arith,
        r.0,
        accepted-zero es (step e s) now o.1 g.1 (after-IsKept e s g.0 p) (unfold after in r.1),
      )
  accepted-zero (mints policy hash invoice parsed key random c ∷ es) s t o g p h =
      let e = mints policy hash invoice parsed key random c in
      omega (
        arith,
        accepted-zero es (step e s) t o g.1 (after-IsKept e s g.0 p)
            (unfold after in minted_IsOver t policy hash invoice parsed key random c s.db h),
      )
  accepted-zero (prunes now ∷ es) s t o g p h =
      let e = prunes now in
      omega (
        arith,
        accepted-zero es (step e s) now o.1 g.1 (after-IsKept e s g.0 p)
            (unfold after in prune-IsOver t now s.db o.0 h),
      )

  accepted-once :
      (es : List Event) (s : Tables) (t : ℕ)
      → Ordered t es
      → GivenAll s es
      → All (IsKept k end) s.pending
      → accepted parse decode hash_of crypto k s es ≤ 1
  unfolding accepted accepts
  accepted-once [] s t o g p = omega arith
  accepted-once (verifies policy hash encoded time ∷ es) s t o g p =
      let e = verifies policy hash encoded time in
      omega (arith, accepted-once es (step e s) t o g.1 (after-IsKept e s g.0 p))
  accepted-once (presents policy hash encoded time ∷ es) s t o g p =
      let e = presents policy hash encoded time in
      omega (arith, accepted-once es (step e s) t o g.1 (after-IsKept e s g.0 p))
  accepted-once (mints policy hash invoice parsed key random c ∷ es) s t o g p =
      let e = mints policy hash invoice parsed key random c in
      omega (arith, accepted-once es (step e s) t o g.1 (after-IsKept e s g.0 p))
  accepted-once (prunes now ∷ es) s t o g p =
      let e = prunes now in
      omega (arith, accepted-once es (step e s) now o.1 g.1 (after-IsKept e s g.0 p))
  accepted-once (claims i collected c now ∷ es) s t o g p =
      let e = claims i collected c now in
      let v = pending_at i s.pending in
      let p' : All (IsKept k end) (step e s).pending = after-IsKept e s g.0 p in
      elim (claimed-once parse decode hash_of crypto k end v collected c now s.db
        (pending_at-IsKept i s.pending p)) [
          | inl zero_here ↦ omega (arith, zero_here, accepted-once es (step e s) now o.1 g.1 p')
          | inr over ↦ omega (
            arith,
            claimed-le parse decode hash_of crypto k end v collected c now s.db,
            accepted-zero es (step e s) now o.1 g.1 p' (unfold after in over),
          )
        ]

  -- Suppose that the policies' nodes have signed invoices of a payment, which is a network and a payment hash,
  -- with one end only, and that the roots stored for its credentials that are presented end 61 seconds later.
  -- However settlements, with L402 and without, are verified and claim later, credentials are minted
  -- and rows are pruned, where the clocks of the claims and prunings do not go back, whatever the disk and
  -- the mint answer and wherever requests are cancelled: at most one settlement of that payment succeeds,
  -- and none does if the table holds the payment at the beginning.
  pub settled_once :
      (es : List Event) (s : Tables) (t : ℕ)
      → Ordered t es
      → GivenAll s es
      → s.pending ≡ []
      → (accepted parse decode hash_of crypto k s es ≤ 1)
        × ((get k s.db.spent ≡ some (kept_until end))
            → accepted parse decode hash_of crypto k s es ≡ 0)
  settled_once es s t o g none_waits =
      let p : All (IsKept k end) s.pending = subst (All (IsKept k end)) (sym none_waits) tt in
      (accepted-once es s t o g p, λ row. accepted-zero es s t o g p (inl row))

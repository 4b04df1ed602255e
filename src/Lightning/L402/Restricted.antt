-- ===== src/Lightning/L402/Restricted.antt =====
-- What an accepted L402 credential restricts: `verify` of crates/geata/src/payments/lightning/l402.rs.
use geata.Common.{
  ℕ, ◌<◌, ◌≡◌, refl, sym, ap, ◌∙◌, Bool, true, false, ◌&&◌, ◌||◌, Option, none, some, List, [], ◌∷◌,
  ◌==◌, ltb, if◌then◌else◌, any, All, arith, u64_max, ◌⊎◌, inl, inr, subst, Bool-cases,
}
use geata.Common.Digits.{parse_uint}
use geata.Common.Text.{Text, text, text_Key, strip_prefix}
use geata.Lightning.{Root}
use geata.Lightning.L402.{
  Caveat, first_party, third_party, Macaroon, Crypto, Scan, check_predicate, check_caveats,
  predicates, chain, request_caveat, terms_caveat, verify, timed, accepted_scan,
}
use geata.Lightning.Policies.{Policy}

-- What a caveat that bounds the time bounds it by.
abbrev pub until_of : Text → Option ℕ
until_of p = elim (strip_prefix (text "geata_valid_until=") p) [
  | none ↦ none
  | some value ↦ parse_uint u64_max value
]

abbrev pub IsBefore : ℕ → Option ℕ → Type 0
IsBefore time none = Unit
IsBefore time (some n) = time < n

module _ (crypto : Crypto) where
  module _ (policy : Policy) (hash preimage : Text) (time : ℕ) where
    -- One step of the scan.
    abbrev Step : Text → Scan crypto → Option (Scan crypto) → Type 0
    Step p s none = Unit
    Step p s (some s') =
        (s'.signature ≡ crypto.hmac s.signature p)
        × ((s'.service ≡ true → (s.service || p == text "services=geata:0") ≡ true)
            × ((s'.request ≡ true → (s.request || p == request_caveat crypto hash) ≡ true)
                × ((s'.terms ≡ true → (s.terms || p == terms_caveat crypto policy hash) ≡ true)
                    × IsBefore time (until_of p))))

    timed-Step :
        (p : Text) (s : Scan crypto)
        → Step p s (
            timed crypto preimage time p
              (record s { signature = crypto.hmac s.signature p })
              (strip_prefix (text "geata_valid_until=") p))
    timed-Step p s = ground arith

    -- None of the three fixed caveats bounds the time.
    fixed-IsBefore :
        (p : Text)
        → (p ≡ text "services=geata:0")
          ⊎ ((p ≡ request_caveat crypto hash) ⊎ (p ≡ terms_caveat crypto policy hash))
        → IsBefore time (until_of p)
    unfolding strip_prefix
    fixed-IsBefore p (inl e) = subst (λ p. IsBefore time (until_of p)) (sym e) tt
    fixed-IsBefore p (inr (inl e)) = subst (λ p. IsBefore time (until_of p)) (sym e) tt
    fixed-IsBefore p (inr (inr e)) = subst (λ p. IsBefore time (until_of p)) (sym e) tt

    check_predicate-Step :
        (p : Text) (s : Scan crypto)
        → Step p s (check_predicate crypto policy hash preimage time p s)
    unfolding check_predicate
    check_predicate-Step p s = elim (Bool-cases (p == text "services=geata:0")) [
      | inl e ↦ rw e (
        refl,
        (
          λ _. ground arith,
          (
            λ h. ground arith,
            (
              λ h. ground arith,
              fixed-IsBefore p (inl ((text_Key.same_iff p (text "services=geata:0")).0 e)),
            ),
          ),
        ),
      )
      | inr d ↦ rw d (elim (Bool-cases (p == request_caveat crypto hash)) [
        | inl e ↦ rw e (
          refl,
          (
            λ h. ground arith,
            (
              λ _. ground arith,
              (
                λ h. ground arith,
                fixed-IsBefore p
                    (inr (inl ((text_Key.same_iff p (request_caveat crypto hash)).0 e))),
              ),
            ),
          ),
        )
        | inr e ↦ rw e (elim (Bool-cases (p == terms_caveat crypto policy hash)) [
          | inl f ↦ rw f (
            refl,
            (
              λ h. ground arith,
              (
                λ h. ground arith,
                (
                  λ _. ground arith,
                  fixed-IsBefore p
                      (inr (inr ((text_Key.same_iff p (terms_caveat crypto policy hash)).0 f))),
                ),
              ),
            ),
          )
          | inr f ↦ rw f (timed-Step p s)
        ])
      ])
    ]

    -- The whole scan.
    abbrev Scanned : List Caveat → Scan crypto → Option (Scan crypto) → Type 0
    Scanned cs s none = Unit
    Scanned cs s (some s') =
        let ps = predicates crypto cs in
        (s'.signature ≡ chain crypto s.signature ps)
        × ((s'.service ≡ true → (s.service || any (λ p. p == text "services=geata:0") ps) ≡ true)
            × ((s'.request ≡ true
                  → (s.request || any (λ p. p == request_caveat crypto hash) ps) ≡ true)
                × ((s'.terms ≡ true
                      → (s.terms || any (λ p. p == terms_caveat crypto policy hash) ps) ≡ true)
                    × All (λ p. IsBefore time (until_of p)) ps)))

    Scanned-first :
        (p : Text) (cs : List Caveat) (s s' : Scan crypto) (o : Option (Scan crypto))
        → Step p s (some s')
        → Scanned cs s' o
        → Scanned (first_party p ∷ cs) s o
    unfolding chain
    Scanned-first p cs s s' none h k = tt
    Scanned-first p cs s s' (some r) h k = (
      k.0 ∙ ap (λ x. chain crypto x (predicates crypto cs)) h.0,
      (
        λ e. joined s.service s'.service _ _ h.1.0 (k.1.0 e),
        (
          λ e. joined s.request s'.request _ _ h.1.1.0 (k.1.1.0 e),
          (λ e. joined s.terms s'.terms _ _ h.1.1.1.0 (k.1.1.1.0 e), (h.1.1.1.1, k.1.1.1.1)),
        ),
      ),
    )
      where
        joined :
            (a c b rest : Bool)
            → (c ≡ true → (a || b) ≡ true)
            → (c || rest) ≡ true
            → (a || (if b then true else rest)) ≡ true
        joined a true b rest h k = ground (arith, h refl)
        joined a false true rest h k = ground arith
        joined a false false rest h k = ground arith

    check_caveats-Scanned :
        (cs : List Caveat) (s : Scan crypto)
        → Scanned cs s (check_caveats crypto policy hash preimage time cs s)
    unfolding check_caveats chain
    check_caveats-Scanned [] s = ground arith
    check_caveats-Scanned (third_party ∷ cs) s = tt
    check_caveats-Scanned (first_party p ∷ cs) s =
        go (check_predicate crypto policy hash preimage time p s) (check_predicate-Step p s)
          (check_caveats-Scanned cs)
      where
        go :
            (o : Option (Scan crypto))
            → Step p s o
            → ((s' : Scan crypto)
                → Scanned cs s' (check_caveats crypto policy hash preimage time cs s'))
            → Scanned (first_party p ∷ cs) s (elim o [
              | none ↦ none
              | some next ↦ check_caveats crypto policy hash preimage time cs next
            ])
        go none h k = tt
        go (some s') h k =
            Scanned-first p cs s s' (check_caveats crypto policy hash preimage time cs s') h (k s')

  -- What stands behind an accepted credential.
  abbrev pub IsRestricted : Policy → Text → Macaroon → Root → ℕ → Type 0
  IsRestricted policy hash m root time =
      let ps = predicates crypto m.caveats in
      (time < root.valid_before)
      × ((m.signature ≡ chain crypto (crypto.hmac root.key m.identifier) ps)
          × ((any (λ p. p == text "services=geata:0") ps ≡ true)
              × ((any (λ p. p == request_caveat crypto hash) ps ≡ true)
                  × ((any (λ p. p == terms_caveat crypto policy hash) ps ≡ true)
                      × All (λ p. IsBefore time (until_of p)) ps))))

  scan-IsRestricted :
      (policy : Policy) (hash preimage : Text) (m : Macaroon) (root : Root) (time : ℕ)
      (s : Scan crypto) (o : Option (Scan crypto))
      → (s.service ≡ false) × ((s.request ≡ false) × (s.terms ≡ false))
      → s.signature ≡ crypto.hmac root.key m.identifier
      → time < root.valid_before
      → Scanned policy hash preimage time m.caveats s o
      → accepted_scan crypto m root.key o ≡ true
      → IsRestricted policy hash m root time
  scan-IsRestricted policy hash preimage m root time s none fresh signed lt h e = absurd (cc)
  scan-IsRestricted policy hash preimage m root time s (some r) fresh signed lt h e =
      let parts = conjuncts r.service r.request r.terms r.until (r.signature == m.signature) _ e in
      (
        lt,
        (
          sym ((text_Key.same_iff r.signature m.signature).0 parts.1.1.1)
              ∙ (h.0 ∙ ap (λ x. chain crypto x (predicates crypto m.caveats)) signed),
          (
            found s.service _ fresh.0 (h.1.0 parts.0),
            (
              found s.request _ fresh.1.0 (h.1.1.0 parts.1.0),
              (found s.terms _ fresh.1.1 (h.1.1.1.0 parts.1.1.0), h.1.1.1.1),
            ),
          ),
        ),
      )
    where
      conjuncts :
          (a b c d e f : Bool)
          → (((a && b) && (c && d)) && (e && f)) ≡ true
          → (a ≡ true) × ((b ≡ true) × ((c ≡ true) × (e ≡ true)))
      conjuncts a b c d e f h = ground arith

      found : (a b : Bool) → a ≡ false → (a || b) ≡ true → b ≡ true
      found a b h k = ground arith

  -- An accepted credential has not ended, and is restricted to the request and to the policy's terms:
  -- these and the service are among its caveats, the macaroon is signed with the stored root key over its
  -- identifier and then over each caveat in turn, and every caveat that bounds the time bounds it
  -- beyond now, so that a holder who adds caveats can only shorten what was granted.
  pub verify-IsRestricted :
      (policy : Policy) (hash : Text) (m : Macaroon) (preimage : Text) (root : Root) (time : ℕ)
      → verify crypto policy hash m preimage root time ≡ true
      → IsRestricted policy hash m root time
  unfolding verify
  verify-IsRestricted policy hash m preimage root time h =
      let s : Scan crypto = record {
        service = false;
        request = false;
        terms = false;
        until = false;
        expiry = root.valid_before;
        signature = crypto.hmac root.key m.identifier;
      } in
      let parts = both (ltb time root.valid_before) _ h in
      scan-IsRestricted policy hash preimage m root time s _ (refl, (refl, refl)) refl
        (ground (arith, parts.0)) (check_caveats-Scanned policy hash preimage time m.caveats s)
        parts.1
    where
      both : (a b : Bool) → (a && b) ≡ true → (a ≡ true) × (b ≡ true)
      both a b h = ground arith

-- ===== src/Lightning/L402/Minted.antt =====
-- A minted L402 credential is accepted (crates/geata/src/payments/lightning/l402.rs).
use geata.Common.{
  ℕ, ◌≤◌, ◌<◌, ◌≡◌, refl, ap, ◌∙◌, true, false, Option, none, some, List, [], ◌∷◌, ◌++◌, ◌==◌, ltb,
  leb, arith, u64_max, same_key_refl, length, nat_eq, all,
}
use geata.Common.Digits.{all_digits, decimal, parse_uint-decimal, decimal_number}
use geata.Common.Text.{Text, text, text_Key, text_eq, strip_prefix}
use geata.Lightning.L402.{
  Caveat, first_party, is_first, Macaroon, Crypto, Scan, check_predicate, check_caveats, predicates,
  chain, request_caveat, terms_caveat, until_caveat, minted_caveats, mint_macaroon, verify,
  is_number, terms,
}
use geata.Lightning.Policies.{Policy}

-- The macaroon library accepts a first-party macaroon with a right chain of signatures and predicates that are
-- all satisfied.
abbrev pub Accepts : Crypto → Text → Type 0
Accepts crypto key =
    (n : Macaroon)
    → all is_first n.caveats ≡ true
    → n.signature ≡ chain crypto (crypto.hmac key n.identifier) (predicates crypto n.caveats)
    → crypto.verifies (predicates crypto n.caveats) n key ≡ true

text_ne : (c d : ℕ) (s t : Text) → nat_eq c d ≡ false → ((c ∷ s) == (d ∷ t)) ≡ false
unfolding text_eq
text_ne c d s t h = rw h refl

is_number-decimal : (crypto : Crypto) (n : ℕ) → is_number crypto (decimal n) ≡ true
is_number-decimal crypto n = go (decimal n) (decimal_number n)
  where
    go : (s : Text) → (0 < length s) × (all_digits s ≡ true) → is_number crypto s ≡ true
    go [] h = absurd (omega (arith, h.0))
    go (c ∷ s) h = h.1

module _ (crypto : Crypto) (policy : Policy) (hash preimage : Text) (time : ℕ) where
  abbrev signed : Scan crypto → Text → Scan crypto
  signed s p = record s { signature = crypto.hmac s.signature p }

  service_step :
      (s : Scan crypto)
      → check_predicate crypto policy hash preimage time (text "services=geata:0") s
        ≡ some (record (signed s (text "services=geata:0")) { service = true })
  unfolding check_predicate
  service_step s = rw (same_key_refl (text "services=geata:0")) refl

  request_step :
      (s : Scan crypto)
      → check_predicate crypto policy hash preimage time (request_caveat crypto hash) s
        ≡ some (record (signed s (request_caveat crypto hash)) { request = true })
  unfolding check_predicate
  request_step s =
      rw
        (
          text_ne b'g' b's' (text "eata_request=" ++ hash) (text "ervices=geata:0") refl,
          same_key_refl (request_caveat crypto hash),
        )
        refl

  terms_ne : (terms_caveat crypto policy hash == request_caveat crypto hash) ≡ false
  unfolding text_eq
  terms_ne = refl

  until_ne :
      (n : ℕ)
      → ((until_caveat crypto n == text "services=geata:0") ≡ false)
        × (((until_caveat crypto n == request_caveat crypto hash) ≡ false)
            × ((until_caveat crypto n == terms_caveat crypto policy hash) ≡ false))
  unfolding text_eq
  until_ne n = (refl, (refl, refl))

  terms_step :
      (s : Scan crypto)
      → check_predicate crypto policy hash preimage time (terms_caveat crypto policy hash) s
        ≡ some (record (signed s (terms_caveat crypto policy hash)) { terms = true })
  unfolding check_predicate
  terms_step s =
      rw
        (
          text_ne b'g' b's' (text "eata_terms=" ++ terms crypto policy hash)
              (text "ervices=geata:0") refl,
          terms_ne,
          same_key_refl (terms_caveat crypto policy hash),
        )
        refl

  until_step :
      (n : ℕ) (s : Scan crypto)
      → n ≤ s.expiry
      → n ≤ u64_max
      → time < n
      → check_predicate crypto policy hash preimage time (until_caveat crypto n) s
        ≡ some (record (signed s (until_caveat crypto n)) { expiry = n; until = true })
  unfolding check_predicate strip_prefix
  until_step n s le bound lt =
      let fits : leb n s.expiry ≡ true = ground arith in
      let later : ltb time n ≡ true = ground arith in
      rw
        (
          (until_ne n).0,
          (until_ne n).1.0,
          (until_ne n).1.1,
          is_number-decimal crypto n,
          parse_uint-decimal u64_max n bound (omega arith),
          fits,
          later,
        )
        refl

  check_caveats-step :
      (p : Text) (cs : List Caveat) (s next : Scan crypto)
      → check_predicate crypto policy hash preimage time p s ≡ some next
      → check_caveats crypto policy hash preimage time (first_party p ∷ cs) s
        ≡ check_caveats crypto policy hash preimage time cs next
  unfolding check_caveats
  check_caveats-step p cs s next h =
      ap
        (λ (o : Option (Scan crypto)). elim o [
          | none ↦ none
          | some next ↦ check_caveats crypto policy hash preimage time cs next
        ])
        h

  check_caveats-none :
      (s : Scan crypto) → check_caveats crypto policy hash preimage time [] s ≡ some s
  unfolding check_caveats
  check_caveats-none s = refl

  module _ (payment_hash random key : Text) (valid_before : ℕ) where
    abbrev m : Macaroon
    m = mint_macaroon crypto policy hash payment_hash random key valid_before

    abbrev start : Scan crypto
    start = record {
      service = false;
      request = false;
      terms = false;
      until = false;
      expiry = valid_before;
      signature = crypto.hmac key (0 ∷ 0 ∷ (payment_hash ++ random));
    }

    abbrev ended : Scan crypto
    ended = record {
      service = true;
      request = true;
      terms = true;
      until = true;
      expiry = valid_before;
      signature =
          chain crypto (crypto.hmac key (0 ∷ 0 ∷ (payment_hash ++ random)))
            (predicates crypto (minted_caveats crypto policy hash valid_before));
    }

    check_caveats-minted :
        valid_before ≤ u64_max
        → time < valid_before
        → check_caveats crypto policy hash preimage time
            (minted_caveats crypto policy hash valid_before)
            start
          ≡ some ended
    unfolding chain
    check_caveats-minted bound lt =
        let s1 : Scan crypto = record (signed start (text "services=geata:0")) { service = true } in
        let s2 : Scan crypto = record (signed s1 (request_caveat crypto hash)) { request = true } in
        let s3 : Scan crypto = record (signed s2 (terms_caveat crypto policy hash)) {
          terms = true;
        } in
        let s4 : Scan crypto = record (signed s3 (until_caveat crypto valid_before)) {
          expiry = valid_before;
          until = true;
        } in
        check_caveats-step _ _ start s1 (service_step start)
        ∙ (check_caveats-step _ _ s1 s2 (request_step s1)
            ∙ (check_caveats-step _ _ s2 s3 (terms_step s2)
                ∙ (check_caveats-step _ _ s3 s4 (until_step valid_before s3 (omega arith) bound lt)
                    ∙ check_caveats-none s4)))

    pub mint_macaroon-verifies :
        Accepts crypto key
        → valid_before ≤ u64_max
        → time < valid_before
        → verify crypto policy hash m preimage
            (record { key = key; valid_before = valid_before })
            time
          ≡ true
    unfolding verify mint_macaroon
    mint_macaroon-verifies library bound lt =
        let later : ltb time valid_before ≡ true = ground arith in
        rw (later, check_caveats-minted bound lt, same_key_refl m.signature, library m refl refl)
          refl

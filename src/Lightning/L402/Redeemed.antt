-- ===== src/Lightning/L402/Redeemed.antt =====
-- A minted L402 credential with its proof of payment is accepted: `mint_l402`, `parse_credential`, `verify` and
-- the lookup of `settle_l402` of crates/geata/src/payments/lightning/l402.rs together.
use geata.Common.{
  ℕ, zero, suc, ◌+◌, ◌≤◌, ◌<◌, ◌≡◌, refl, ap, true, false, not, some, [], ◌∷◌, ◌++◌, ltb, arith,
  u64_max, same_key_refl, length, length-append, nat_eq, all, take, saturating_add,
}
use geata.Common.Map.{insert, get-insert_self}
use geata.Common.Text.{
  Text, text, text_Key, byte_length, split_once, strip_prefix, to_ascii_lowercase,
}
use geata.Ledger.{Commit, answered, rolled_back, unseen}
use geata.Lightning.{Invoice, Settlements, skew, max_payment_header}
use geata.Lightning.Policies.{Policy, receiver_network}
use geata.Lightning.L402.{
  Macaroon, Crypto, digest, hex, bytes_of, hash_in, decode_hash, parse_credential,
  verify_credential, mint_macaroon, mint_l402, store_root,
}
use geata.Lightning.L402.Minted.{Accepts, mint_macaroon-verifies}

-- What stands before a separator that does not occur in it is found again.
split_once-append :
    (sep : ℕ) (a b : Text)
    → all (λ c. not (nat_eq c sep)) a ≡ true
    → split_once sep (a ++ (sep ∷ b)) ≡ some (a, b)
unfolding split_once
split_once-append sep [] b h = ground arith
split_once-append sep (c ∷ a) b h = ground (arith, split_once-append sep a b)

ltb-of_le : (n m : ℕ) → n ≤ m → ltb m n ≡ false
ltb-of_le n m h = ground arith

take-append : (n : ℕ) (a b : Text) → length a ≡ n → take n (a ++ b) ≡ a
take-append zero [] b h = refl
take-append zero (c ∷ a) b h = absurd (omega (arith, h))
take-append (suc n) [] b h = absurd (omega (arith, h))
take-append (suc n) (c ∷ a) b h = ap (λ x. c ∷ x) (take-append n a b (omega (arith, h)))

module _ (crypto : Crypto) (policy : Policy) (hash : Text) (parsed : Invoice)
    (key random : Text) where
  -- When the credential ends.
  abbrev pub end : ℕ
  end = parsed.created + parsed.expiry_time + (skew + 1)

  abbrev pub macaroon : Macaroon
  macaroon = mint_macaroon crypto policy hash (bytes_of parsed.payment_hash) random key end

  -- The library reads back what it writes of the macaroon, which is of version 2 and has no colon.
  pub record IsWritten : Type 0 where
    pub bytes : Text
    pub decoded : crypto.base64 (crypto.encode macaroon) ≡ some (2 ∷ bytes)
    pub read : crypto.deserialize (2 ∷ bytes) ≡ some macaroon
    pub no_colon : all (λ c. not (nat_eq c b':')) (crypto.encode macaroon) ≡ true

  -- The proof is the hexadecimal preimage of the payment hash.
  pub record IsPaid (proof : Text) : Type 0 where
    pub preimage : Text
    pub is_proof : decode_hash (to_ascii_lowercase proof) ≡ some preimage
    pub is_preimage : crypto.sha256 preimage ≡ bytes_of parsed.payment_hash

  abbrev pub redemption : Text → Text
  redemption proof = crypto.encode macaroon ++ (b':' ∷ proof)

  hash_in-macaroon :
      length (bytes_of parsed.payment_hash) ≡ 32
      → hash_in macaroon.identifier ≡ bytes_of parsed.payment_hash
  unfolding mint_macaroon
  hash_in-macaroon h = take-append 32 (bytes_of parsed.payment_hash) random h

  length-identifier :
      length (bytes_of parsed.payment_hash) ≡ 32
      → length random ≡ 32
      → nat_eq (length macaroon.identifier) 66 ≡ true
  unfolding mint_macaroon
  length-identifier h r = ground (arith, length-append (bytes_of parsed.payment_hash) random)

  parse_credential-minted :
      (proof : Text) (w : IsWritten) (p : IsPaid proof)
      → length (bytes_of parsed.payment_hash) ≡ 32
      → length random ≡ 32
      → byte_length (redemption proof) ≤ max_payment_header
      → parse_credential crypto (redemption proof) ≡ some (macaroon, p.preimage)
  unfolding parse_credential strip_prefix mint_macaroon
  parse_credential-minted proof w p h r small =
      let fits : ltb max_payment_header (byte_length (redemption proof)) ≡ false =
        ltb-of_le (byte_length (redemption proof)) max_payment_header small in
      rw
        (
          fits,
          split_once-append b':' (crypto.encode macaroon) proof w.no_colon,
          w.decoded,
          w.read,
          length-identifier h r,
          p.is_proof,
          p.is_preimage,
          hash_in-macaroon h,
          same_key_refl (bytes_of parsed.payment_hash),
        )
        refl

  abbrev pub challenge_of : Text → Text
  challenge_of invoice =
      text "L402 macaroon=\""
      ++ (crypto.encode macaroon ++ (text "\", invoice=\"" ++ (invoice ++ text "\"")))

  -- What a minting that answers a challenge has stored.
  minted-roots :
      (invoice challenge : Text) (c : Commit) (db : Settlements)
      → (mint_l402 crypto policy hash invoice parsed key random c db).0 ≡ some challenge
      → (end ≤ u64_max)
        × ((mint_l402 crypto policy hash invoice parsed key random c db).1.roots
            ≡ insert
                (digest crypto macaroon.identifier)
                (record { key = key; valid_before = end })
                db.roots)
        × (challenge ≡ challenge_of invoice)
  unfolding mint_l402 store_root
  minted-roots invoice challenge answered db h = (ground arith, ground arith, ground arith)
  minted-roots invoice challenge rolled_back db h = absurd (ground arith)
  minted-roots invoice challenge unseen db h = absurd (ground arith)

  -- What a minting issues is redeemable: it answers the invoice with a macaroon, and until that ends, the
  -- credential that joins the macaroon with the proof of payment is found valid for the request against the
  -- roots as the minting leaves them, under the key of the invoice's payment hash and to be kept 3,599 seconds
  -- beyond its end. The payment hash and the random part have 32 bytes each, the credential is not longer than a
  -- header may be, and the macaroon library reads back the macaroon that it wrote and accepts a
  -- first-party macaroon with a right chain of signatures and satisfied predicates.
  pub mint_l402-redeemable :
      (invoice challenge proof : Text) (c : Commit) (db : Settlements) (time : ℕ)
      → Accepts crypto key
      → IsWritten
      → IsPaid proof
      → length (bytes_of parsed.payment_hash) ≡ 32
      → length random ≡ 32
      → byte_length (redemption proof) ≤ max_payment_header
      → time < end
      → (mint_l402 crypto policy hash invoice parsed key random c db).0 ≡ some challenge
      → (challenge ≡ challenge_of invoice)
        × (verify_credential crypto policy hash
              (redemption proof)
              time
              (mint_l402 crypto policy hash invoice parsed key random c db).1.roots
            ≡ some (
              receiver_network policy.receiver ++ (b':' ∷ hex (bytes_of parsed.payment_hash)),
              saturating_add u64_max end 3599,
            ))
  unfolding verify_credential
  mint_l402-redeemable invoice challenge proof c db time library w p h r small lt minted =
      let stored = minted-roots invoice challenge c db minted in
      (
        stored.2,
        rw
            (
              parse_credential-minted proof w p h r small,
              stored.1,
              get-insert_self (digest crypto macaroon.identifier)
                  (record { key = key; valid_before = end }) db.roots,
              mint_macaroon-verifies crypto policy hash p.preimage time
                  (bytes_of parsed.payment_hash) random key end library stored.0 lt,
              hash_in-macaroon h,
            )
            refl,
      )

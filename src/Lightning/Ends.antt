-- ===== src/Lightning/Ends.antt =====
-- How long the payments of one key are kept: `verify` of crates/geata/src/payments/lightning/mod.rs and l402.rs.
use geata.Common.{
  ℕ, ◌+◌, ◌≡◌, refl, sym, ◌∙◌, Bool, true, false, ◌&&◌, Option, none, some, ltb, nat_eq, ◌==◌,
  if◌then◌else◌, saturating_add, u64_max, is_some, arith, not, ◌||◌,
}
use geata.Common.Text.{Text, text_Key, byte_length}
use geata.Lightning.Policies.{ReceiverConfig, ldk, cashu, Policy, ldk_of}
use geata.Lightning.Terms.{is_required}
use geata.Common.Map.{Map, get, Every, get-Every}
use geata.Lightning.Spent.{not_none}
use geata.Lightning.{
  Invoice, Payment, Root, is_current, is_valid, validate_invoice, if_valid, key_of, retain_until,
  proven, accept, verify, max_payment_header, skew, is_hash,
}
use geata.Lightning.L402.{
  Crypto, Macaroon, digest, granted, looked_up, parse_credential, verify_credential,
}
use geata.Lightning.L402

-- The invoice is signed by the node of the receiver.
abbrev pub is_issued : ReceiverConfig → Invoice → Bool
is_issued (ldk node) i = i.signed && i.payee == node.pay_to
is_issued (cashu _ _) i = false

abbrev pub kept_until : ℕ → ℕ
kept_until end = saturating_add u64_max end (skew + 3600)

module _ (parse : Text → Option Invoice) (decode : Text → Option Payment)
    (hash_of : Text → Option Text) (k : Text) (end : ℕ) where
  -- The policy's node has signed invoices of this key with one end only.
  abbrev pub EndsAt : Policy → Type 0
  EndsAt policy =
      (encoded : Text) (i : Invoice)
      → parse encoded ≡ some i
      → is_issued policy.receiver i ≡ true
      → key_of policy i ≡ k
      → i.created + i.expiry_time ≡ end

  current-bound :
      (i : Invoice) (time : ℕ)
      → i.created + i.expiry_time ≡ end
      → is_current i time skew ≡ true
      → retain_until i ≡ kept_until end
  unfolding is_current
  current-bound i time e c = ground arith

  claimed-bound :
      (policy : Policy) (i : Invoice) (encoded : Text) (time until : ℕ) (b : Bool)
      → EndsAt policy
      → parse encoded ≡ some i
      → is_issued policy.receiver i ≡ true
      → is_current i time skew ≡ true
      → (let r : Option (Text × ℕ) = if b then some (key_of policy i, retain_until i) else none in
          r ≡ some (k, until))
      → until ≡ kept_until end
  claimed-bound policy i encoded time until false ends e s c h = absurd (ground arith)
  claimed-bound policy i encoded time until true ends e s c h =
      let same_key : key_of policy i ≡ k = ground (arith, h) in
      let same_until : retain_until i ≡ until = ground (arith, h) in
      sym same_until ∙ current-bound i time (ends encoded i e s same_key) c

  valid-current :
      (policy : Policy) (hash : Text) (i : Invoice) (time : ℕ)
      → is_some (ldk_of policy.receiver) ≡ true
      → is_valid policy hash time skew i ≡ true
      → (is_issued policy.receiver i ≡ true) × (is_current i time skew ≡ true)
  unfolding is_valid ldk_of
  valid-current policy hash i time node h = (ground arith, ground arith)

  proven-bound :
      (policy : Policy) (hash encoded : Text) (payment : Payment) (i : Invoice) (time until : ℕ)
      (b : Bool)
      → EndsAt policy
      → is_some (ldk_of policy.receiver) ≡ true
      → parse encoded ≡ some i
      → is_valid policy hash time skew i ≡ b
      → (let o : Option Invoice = if b then some i else none in
          proven parse decode hash_of policy payment o ≡ some (k, until))
      → until ≡ kept_until end
  proven-bound policy hash encoded payment i time until false ends n e v h = absurd (ground arith)
  proven-bound policy hash encoded payment i time until true ends n e v h =
      let valid = valid-current policy hash i time n v in
      claimed-bound policy i encoded time until (is_hash i.payment_hash (hash_of payment.preimage))
        ends e valid.0 valid.1 h

  parsed-bound :
      (policy : Policy) (hash encoded : Text) (payment : Payment) (time until : ℕ)
      (o : Option Invoice)
      → EndsAt policy
      → is_some (ldk_of policy.receiver) ≡ true
      → parse encoded ≡ o
      → proven parse decode hash_of policy payment (if_valid policy hash time skew o)
        ≡ some (k, until)
      → until ≡ kept_until end
  parsed-bound policy hash encoded payment time until none ends n e h = absurd (ground arith)
  parsed-bound policy hash encoded payment time until (some i) ends n e h =
      proven-bound policy hash encoded payment i time until (is_valid policy hash time skew i) ends
        n e refl h

  accept-bound :
      (policy : Policy) (hash : Text) (time until : ℕ) (o : Option Payment)
      → EndsAt policy
      → is_some (ldk_of policy.receiver) ≡ true
      → accept parse decode hash_of policy hash time o ≡ some (k, until)
      → until ≡ kept_until end
  unfolding validate_invoice
  accept-bound policy hash time until none ends n h = absurd (ground arith)
  accept-bound policy hash time until (some payment) ends n h =
      let encoded = payment.accepted.extra.invoice in
      parsed-bound policy hash encoded payment time until (parse encoded) ends n refl (
        not_none (not (nat_eq payment.version 2) || not (is_required policy hash payment.accepted))
          _ h)

  -- A verified payment of the key is to be kept until the key's end.
  pub verify-kept :
      (policy : Policy) (hash encoded : Text) (time until : ℕ)
      → EndsAt policy
      → verify parse decode hash_of policy hash encoded time ≡ some (k, until)
      → until ≡ kept_until end
  unfolding verify
  verify-kept policy hash encoded time until ends h =
      accept-bound policy hash time until (decode encoded) ends
        (is_node (is_some (ldk_of policy.receiver)) _ _ h)
        (not_none
          (not (is_some (ldk_of policy.receiver)) || ltb max_payment_header (byte_length encoded)) _
          h)
    where
      is_node :
          (b c : Bool) (o : Option (Text × ℕ))
          → (let r : Option (Text × ℕ) = if not b || c then none else o in r ≡ some (k, until))
          → b ≡ true
      is_node true c o h = refl
      is_node false c o h = absurd (ground arith)

module _ (crypto : Crypto) (k : Text) (end : ℕ) where
  -- If the credential is one of the key, the root that is stored for it ends a second behind the last moment at
  -- which an invoice of the key is accepted.
  abbrev pub RootEnds : Policy → Text → Map Text Root → Type 0
  RootEnds policy encoded roots =
      Every
        (λ id root.
          (m : Macaroon) (preimage : Text)
          → parse_credential crypto encoded ≡ some (m, preimage)
          → digest crypto m.identifier ≡ id
          → L402.key_of crypto policy m ≡ k
          → root.valid_before ≡ end + (skew + 1))
        roots

  granted-kept :
      (policy : Policy) (hash preimage : Text) (m : Macaroon) (time until : ℕ) (o : Option Root)
      → ((root : Root)
          → o ≡ some root
          → L402.key_of crypto policy m ≡ k
          → root.valid_before ≡ end + (skew + 1))
      → granted crypto policy hash time (m, preimage) o ≡ some (k, until)
      → until ≡ kept_until end
  granted-kept policy hash preimage m time until none ends h = absurd (ground arith)
  granted-kept policy hash preimage m time until (some root) ends h =
      go (L402.verify crypto policy hash m preimage root time) h
    where
      go :
          (b : Bool)
          → (let o : Option (Text × ℕ) =
                if b
                then some
                    (L402.key_of crypto policy m, saturating_add u64_max root.valid_before 3599)
                else none in
              o ≡ some (k, until))
          → until ≡ kept_until end
      go false h = absurd (ground arith)
      go true h =
          let end_is : root.valid_before ≡ end + (skew + 1) = ends root refl (ground (arith, h)) in
          let kept : saturating_add u64_max root.valid_before 3599 ≡ until = ground (arith, h) in
          omega (arith, end_is, kept)

  -- A verified credential of the key is kept as long as a payment of it.
  pub verify_credential-kept :
      (policy : Policy) (hash encoded : Text) (time until : ℕ) (roots : Map Text Root)
      → RootEnds policy encoded roots
      → verify_credential crypto policy hash encoded time roots ≡ some (k, until)
      → until ≡ kept_until end
  unfolding verify_credential
  verify_credential-kept policy hash encoded time until roots ends h =
      go (parse_credential crypto encoded) refl h
    where
      go :
          (o : Option (Macaroon × Text))
          → parse_credential crypto encoded ≡ o
          → looked_up crypto policy hash time roots o ≡ some (k, until)
          → until ≡ kept_until end
      go none p h = absurd (ground arith)
      go (some (m, preimage)) p h =
          granted-kept policy hash preimage m time until (get (digest crypto m.identifier) roots)
            (λ root e. get-Every _ (digest crypto m.identifier) root roots ends e m preimage p refl)
            h

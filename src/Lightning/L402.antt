-- ===== src/Lightning/L402.antt =====
-- L402 credentials (crates/geata/src/payments/lightning/l402.rs): macaroons over a root key that is kept in
-- the table of roots, and a settlement in the same table of spent payments. Bytes are numbers.
pub mod Restricted
pub mod Minted
pub mod Redeemed
use geata.Common.{
  ℕ, ◌+◌, ◌-◌, ◌*◌, ◌/◌, ◌%◌, String, Bool, true, false, ◌&&◌, ◌||◌, not, Option, none, some, List,
  [], ◌∷◌, ◌++◌, Result, ok, err, ltb, leb, nat_eq, ◌==◌, if◌then◌else◌, saturating_add, u64_max,
  is_some, length, take, drop, all,
}
use geata.Common.Map.{Map, get, insert}
use geata.Common.Digits.{is_digit, decimal, all_digits, parse_uint}
use geata.Common.Text.{
  Text, text, text_Key, byte_length, split_once, strip_prefix, to_ascii_lowercase,
}
use geata.Ledger.{Commit}
use geata.Lightning.{
  Invoice, Root, Settlements, LightningError, invalid, unavailable, committed, claim,
  check_capacity, max_payment_header, skew,
}
use geata.Lightning.Terms.{Requirements, requirements}
use geata.Lightning.Policies.{Policy, receiver_network, mint_of, lowercase_hex}

pub data Caveat : Type 0 where
  first_party : Text → Caveat
  third_party : Caveat

-- A macaroon, as the library's accessors answer.
pub record Macaroon : Type 0 where
  pub identifier : Text
  pub caveats : List Caveat
  pub signature : Text

-- What other packages compute. `verifies` is the library's own check of a macaroon with exact predicates.
pub record Crypto : Type 0 where
  pub base64 : Text → Option Text
  pub deserialize : Text → Option Macaroon
  pub encode : Macaroon → Text
  pub sha256 : Text → Text
  pub hmac : Text → Text → Text
  -- The serializer of the terms, with the mint where the receiver has one.
  pub serialize : Option Text → Requirements → Text
  pub verifies : List Text → Macaroon → Text → Bool

abbrev hex_value : ℕ → ℕ
hex_value c = if leb c b'9' then c - b'0' else c - b'a' + 10

unfoldable pub bytes_of : Text → Text
bytes_of [] = []
bytes_of (a ∷ []) = []
bytes_of (a ∷ b ∷ s) = (hex_value a * 16 + hex_value b) ∷ bytes_of s

unfoldable pub decode_hash : Text → Option Text
unfolding byte_length lowercase_hex bytes_of
decode_hash value =
    if nat_eq (byte_length value) 64 && lowercase_hex value then some (bytes_of value) else none

abbrev nibble : ℕ → ℕ
nibble n = if ltb n 10 then b'0' + n else b'a' + (n - 10)

unfoldable pub hex : Text → Text
hex [] = []
hex (b ∷ s) = nibble (b / 16) ∷ nibble (b % 16) ∷ hex s

-- The payment hash inside an identifier.
abbrev pub hash_in : Text → Text
hash_in identifier = take 32 (drop 2 identifier)

abbrev pub is_first : Caveat → Bool
is_first (first_party _) = true
is_first third_party = false

abbrev starts_with : Text → Text → Bool
starts_with prefix s = is_some (strip_prefix prefix s)

abbrev is_v2 : Text → Bool
is_v2 [] = false
is_v2 (b ∷ _) = nat_eq b 2

module _ (crypto : Crypto) where
  unfoldable pub digest : Text → Text
  unfolding hex
  digest bytes = hex (crypto.sha256 bytes)

  unfoldable pub terms : Policy → Text → Text
  unfolding digest requirements mint_of
  terms policy hash =
      digest (crypto.serialize (mint_of policy.receiver) (requirements policy hash []))

  abbrev is_identifier : Text → Bool
  is_identifier id = nat_eq (length id) 66 && starts_with (0 ∷ 0 ∷ []) id

  abbrev with_preimage : Macaroon → Option Text → Option (Macaroon × Text)
  with_preimage m none = none
  with_preimage m (some preimage) =
      if crypto.sha256 preimage == hash_in m.identifier then some (m, preimage) else none

  abbrev checked_macaroon : Text → Option Macaroon → Option (Macaroon × Text)
  checked_macaroon proof none = none
  checked_macaroon proof (some m) =
      if (leb (length m.caveats) 32 && all is_first m.caveats) && is_identifier m.identifier
      then with_preimage m (decode_hash (to_ascii_lowercase proof))
      else none

  abbrev decoded : Text → Option Text → Option (Macaroon × Text)
  decoded proof none = none
  decoded proof (some bytes) =
      if is_v2 bytes then checked_macaroon proof (crypto.deserialize bytes) else none

  abbrev parted : Option (Text × Text) → Option (Macaroon × Text)
  parted none = none
  parted (some (token, proof)) = decoded proof (crypto.base64 token)

  -- The macaroon and the preimage of the payment hash that it names.
  unfoldable pub parse_credential : Text → Option (Macaroon × Text)
  unfolding byte_length split_once strip_prefix decode_hash to_ascii_lowercase
  parse_credential encoded =
      if ltb max_payment_header (byte_length encoded)
      then none
      else parted (split_once b':' encoded)

  -- The signature of a macaroon with these predicates: each is signed with what was signed before.
  unfoldable pub chain : Text → List Text → Text
  chain signature [] = signature
  chain signature (p ∷ ps) = chain (crypto.hmac signature p) ps

  -- The variables of the loop over the caveats: `found`, the expiry and the signature so far.
  pub record Scan : Type 0 where
    pub service : Bool
    pub request : Bool
    pub terms : Bool
    pub until : Bool
    pub expiry : ℕ
    pub signature : Text

  abbrev is_number : Text → Bool
  is_number [] = false
  is_number (c ∷ s) = all_digits (c ∷ s)

  abbrev restrict : ℕ → Scan → Option ℕ → Option Scan
  restrict time scan none = none
  restrict time scan (some next) =
      if leb next scan.expiry && ltb time next
      then some (record scan { expiry = next; until = true })
      else none

  abbrev valid_until : ℕ → Scan → Text → Option Scan
  valid_until time scan value =
      if is_number value then restrict time scan (parse_uint u64_max value) else none

  abbrev is_preimage : Text → Option Text → Bool
  is_preimage preimage none = false
  is_preimage preimage (some p) = p == preimage

  abbrev preimage_caveat : Text → Scan → Option Text → Option Scan
  preimage_caveat preimage scan none = none
  preimage_caveat preimage scan (some value) =
      if is_preimage preimage (decode_hash (to_ascii_lowercase value)) then some scan else none

  abbrev timed : Text → ℕ → Text → Scan → Option Text → Option Scan
  timed preimage time predicate scan (some value) = valid_until time scan value
  timed preimage time predicate scan none =
      preimage_caveat preimage scan (strip_prefix (text "preimage=") predicate)

  abbrev pub request_caveat : Text → Text
  request_caveat hash = text "geata_request=" ++ hash

  abbrev pub terms_caveat : Policy → Text → Text
  terms_caveat policy hash = text "geata_terms=" ++ terms policy hash

  -- One caveat, whose predicate is signed and must be one that is known. A predicate that is no UTF-8
  -- is none of these.
  unfoldable pub check_predicate : Policy → Text → Text → ℕ → Text → Scan → Option Scan
  unfolding all_digits parse_uint strip_prefix decode_hash to_ascii_lowercase terms
  check_predicate policy hash preimage time predicate scan =
      let signed : Scan = record scan { signature = crypto.hmac scan.signature predicate } in
      if predicate == text "services=geata:0"
      then some (record signed { service = true })
      else if predicate == request_caveat hash
      then some (record signed { request = true })
      else if predicate == terms_caveat policy hash
      then some (record signed { terms = true })
      else timed preimage time predicate signed (strip_prefix (text "geata_valid_until=") predicate)

  unfoldable pub check_caveats : Policy → Text → Text → ℕ → List Caveat → Scan → Option Scan
  unfolding check_predicate
  check_caveats policy hash preimage time [] scan = some scan
  check_caveats policy hash preimage time (third_party ∷ caveats) scan = none
  check_caveats policy hash preimage time (first_party predicate ∷ caveats) scan =
      elim (check_predicate policy hash preimage time predicate scan) [
        | none ↦ none
        | some next ↦ check_caveats policy hash preimage time caveats next
      ]

  abbrev pub predicates : List Caveat → List Text
  predicates [] = []
  predicates (first_party p ∷ caveats) = p ∷ predicates caveats
  predicates (third_party ∷ caveats) = predicates caveats

  abbrev is_complete : Scan → Bool
  is_complete s = (s.service && s.request) && (s.terms && s.until)

  abbrev accepted_scan : Macaroon → Text → Option Scan → Bool
  accepted_scan m root none = false
  accepted_scan m root (some s) =
      is_complete s && (s.signature == m.signature && crypto.verifies (predicates m.caveats) m root)

  unfoldable pub verify : Policy → Text → Macaroon → Text → Root → ℕ → Bool
  unfolding check_caveats
  verify policy hash m preimage root time =
      ltb time root.valid_before
      && accepted_scan m root.key (
          check_caveats policy hash preimage time m.caveats (record {
            service = false;
            request = false;
            terms = false;
            until = false;
            expiry = root.valid_before;
            signature = crypto.hmac root.key m.identifier;
          }))

  abbrev pub key_of : Policy → Macaroon → Text
  key_of policy m = receiver_network policy.receiver ++ (b':' ∷ hex (hash_in m.identifier))

  abbrev pub granted : Policy → Text → ℕ → Macaroon × Text → Option Root → Option (Text × ℕ)
  granted policy hash time (m, preimage) none = none
  granted policy hash time (m, preimage) (some root) =
      if verify policy hash m preimage root time
      then some (key_of policy m, saturating_add u64_max root.valid_before 3599)
      else none

  abbrev pub looked_up :
      Policy → Text → ℕ → Map Text Root → Option (Macaroon × Text) → Option (Text × ℕ)
  looked_up policy hash time roots none = none
  looked_up policy hash time roots (some (m, preimage)) =
      granted policy hash time (m, preimage) (get (digest m.identifier) roots)

  -- The key under which the credential's payment is spent, and how long it is kept.
  unfoldable pub verify_credential : Policy → Text → Text → ℕ → Map Text Root → Option (Text × ℕ)
  unfolding get digest parse_credential verify receiver_network hex
  verify_credential policy hash encoded time roots =
      looked_up policy hash time roots (parse_credential encoded)

  abbrev pub claim_collected :
      Commit
      → ℕ
      → Result LightningError (Unit {0})
      → Text
      → ℕ
      → Settlements
      → Result LightningError (Unit {0}) × Settlements
  claim_collected c now (err e) key until db = (err e, db)
  claim_collected c now (ok tt) key until db = claim c now key until db

  -- `collected` is the answer of `collect_cashu_invoice`, which is asked for a receiver at a mint only.
  abbrev pub claim_granted :
      Policy
      → Result LightningError (Unit {0})
      → Commit
      → ℕ
      → Option (Text × ℕ)
      → Settlements
      → Result LightningError (Unit {0}) × Settlements
  claim_granted policy collected c now none db = (err invalid, db)
  claim_granted policy collected c now (some (key, until)) db =
      if is_some (mint_of policy.receiver)
      then claim_collected c now collected key until db
      else claim c now key until db

  -- `settle_l402`: verified at `time`, claimed at `now`.
  unfoldable pub settle_l402 :
      Policy
      → Text
      → Text
      → ℕ
      → Result LightningError (Unit {0})
      → Commit
      → ℕ
      → Settlements
      → Result LightningError (Unit {0}) × Settlements
  unfolding verify_credential claim mint_of
  settle_l402 policy hash encoded time collected c now db =
      claim_granted policy collected c now (verify_credential policy hash encoded time db.roots) db

  -- `checked_add`, twice.
  abbrev pub valid_before_of : Invoice → Option ℕ
  valid_before_of parsed =
      if leb (parsed.created + parsed.expiry_time + (skew + 1)) u64_max
      then some (parsed.created + parsed.expiry_time + (skew + 1))
      else none

  abbrev pub until_caveat : ℕ → Text
  until_caveat valid_before = text "geata_valid_until=" ++ decimal valid_before

  abbrev pub minted_caveats : Policy → Text → ℕ → List Caveat
  minted_caveats policy hash valid_before =
      first_party (text "services=geata:0")
      ∷ first_party (request_caveat hash)
      ∷ first_party (terms_caveat policy hash)
      ∷ first_party (until_caveat valid_before)
      ∷ []

  -- A macaroon for a payment hash, with random bytes behind it, signed with a random root key.
  unfoldable pub mint_macaroon : Policy → Text → Text → Text → Text → ℕ → Macaroon
  unfolding decimal chain
  mint_macaroon policy hash payment_hash random key valid_before = record {
    identifier = 0 ∷ 0 ∷ (payment_hash ++ random);
    caveats = minted_caveats policy hash valid_before;
    signature =
        chain (crypto.hmac key (0 ∷ 0 ∷ (payment_hash ++ random)))
          (predicates (minted_caveats policy hash valid_before));
  }

  abbrev stored :
      Commit → Text → Root → Settlements → Result LightningError (Unit {0}) × Settlements
  stored c id root db = committed c db (record db { roots = insert id root db.roots }) (ok tt)

  -- The root key is stored before the challenge is answered, where there is room and the identifier is new.
  unfoldable pub store_root :
      Commit → Text → Root → Settlements → Result LightningError (Unit {0}) × Settlements
  unfolding get insert check_capacity
  store_root c id root db =
      if not (check_capacity db 1)
      then (err unavailable, db)
      else if is_some (get id db.roots)
      then (err unavailable, db)
      else stored c id root db

  abbrev challenge :
      Text → Macaroon → Result LightningError (Unit {0}) × Settlements → Option Text × Settlements
  challenge invoice m (err e, db) = (none, db)
  challenge invoice m (ok tt, db) = (
    some (
        text "L402 macaroon=\""
        ++ (crypto.encode m ++ (text "\", invoice=\"" ++ (invoice ++ text "\"")))),
    db,
  )

  abbrev minted : Commit → Text → Text → Macaroon → Root → Settlements → Option Text × Settlements
  minted c invoice id m root db = challenge invoice m (store_root c id root db)

  -- `mint_l402`: the challenge, for an invoice that was parsed; the key and the random bytes come from the
  -- generator of the operating system.
  unfoldable pub mint_l402 :
      Policy
      → Text
      → Text
      → Invoice
      → Text
      → Text
      → Commit
      → Settlements
      → Option Text × Settlements
  unfolding mint_macaroon store_root digest
  mint_l402 policy hash invoice parsed key random c db = elim (valid_before_of parsed) [
    | none ↦ (none, db)
    | some valid_before ↦
        let m = mint_macaroon policy hash (bytes_of parsed.payment_hash) random key valid_before in
        minted c invoice (digest m.identifier) m (record { key = key; valid_before = valid_before })
          db
  ]

-- ===== src/Payout/Request.antt =====
-- crates/geata/src/payments/payout.rs: `validate_request`. The parsers are arguments.
use geata.Common.{
  ℕ, ◌*◌, Bool, true, false, ◌&&◌, ◌||◌, not, Option, none, some, List, [], ◌∷◌, ltb, nat_eq, ◌==◌,
  if◌then◌else◌, is_some, any,
}
use geata.Common.Text.{Text, text_Key, byte_length}
use geata.Url.{Url, Parsers, is_secure, is_plain}
use geata.Payments.{CurrencyUnit, is_sat}

pub data TransportType : Type 0 where
  nostr http_post : TransportType

pub record Transport : Type 0 where
  pub kind : TransportType
  pub target : Text

pub record PaymentRequest : Type 0 where
  pub unit : Option CurrencyUnit
  pub mint_preferred : Option Bool
  pub mints : List Text
  pub amount : Option ℕ
  pub has_methods : Bool
  pub single_use : Option Bool
  pub transports : List Transport

abbrev is_target : Parsers → Option Url → Bool
is_target parsers none = false
is_target parsers (some url) = is_secure parsers url && is_plain parsers url

module _ (parsers : Parsers) where
  unfoldable pub validate_http_target : Text → Bool
  unfolding is_secure is_plain
  validate_http_target target = is_target parsers (parsers.url target)

abbrev is_nostr : Transport → Bool
is_nostr t = elim t.kind [ nostr ↦ true | http_post ↦ false ]

unfoldable pub find : (Transport → Bool) → List Transport → Option Transport
find p [] = none
find p (t ∷ ts) = let rest = find p ts in if p t then some t else rest

abbrev or_else : Option Transport → Option Transport → Option Transport
or_else (some t) other = some t
or_else none other = other

-- Nostr where the request has it, or else the first HTTP transport.
unfoldable pub transport_of : PaymentRequest → Option Transport
unfolding find
transport_of request =
    or_else (find is_nostr request.transports) (find (λ t. not (is_nostr t)) request.transports)

abbrev is_sat_or_none : Option CurrencyUnit → Bool
is_sat_or_none none = true
is_sat_or_none (some u) = is_sat u

abbrev is_true : Option Bool → Bool
is_true none = false
is_true (some b) = b

abbrev no_mints : List Text → Bool
no_mints [] = true
no_mints (_ ∷ _) = false

abbrev agrees : Option ℕ → Option ℕ → Bool
agrees none _ = true
agrees (some _) none = true
agrees (some a) (some b) = nat_eq a b

-- The amount to pay, which is positive.
unfoldable pub amount_of : Option ℕ → Option ℕ → Option ℕ
amount_of (some n) _ = if ltb 0 n then some n else none
amount_of none (some n) = if ltb 0 n then some n else none
amount_of none none = none

abbrev is_accepted : Text → PaymentRequest → Bool
is_accepted mint request =
    is_sat_or_none request.unit
    && ((is_true request.mint_preferred
          || (no_mints request.mints || any (λ m. m == mint) request.mints))
        && (is_some request.unit || (not (is_some request.amount) && not request.has_methods)))

module _ (parsers : Parsers) where
  abbrev is_reachable : Option Transport → Bool
  is_reachable none = false
  is_reachable (some t) = is_nostr t || validate_http_target parsers t.target

  abbrev pub with_amount : PaymentRequest → Option ℕ → Option (PaymentRequest × ℕ)
  with_amount request none = none
  with_amount request (some n) =
      if is_reachable (transport_of request) then some (request, n) else none

  unfoldable pub checked_request :
      Text → Option ℕ → Option PaymentRequest → Option (PaymentRequest × ℕ)
  unfolding transport_of validate_http_target amount_of
  checked_request mint amount none = none
  checked_request mint amount (some request) =
      if not (is_accepted mint request) || not (agrees request.amount amount)
      then none
      else with_amount request (amount_of request.amount amount)

module _ (from_str : Text → Option PaymentRequest) (parsers : Parsers) where
  unfoldable pub validate_request : Text → Text → Option ℕ → Option (PaymentRequest × ℕ)
  unfolding checked_request byte_length
  validate_request encoded mint amount =
      if ltb (64 * 1024) (byte_length encoded)
      then none
      else checked_request parsers mint amount (from_str encoded)

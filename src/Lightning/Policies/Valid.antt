-- ===== src/Lightning/Policies/Valid.antt =====
-- What the checks of `Policy::new` and of the receivers establish.
use geata.Common.{◌≤◌, ◌≡◌, true, ◌&&◌, ◌||◌, not, List, arith, u64_max, is_some, any, ◌==◌, length}
use geata.Common.Digits.{parse_uint-AtMost}
use geata.Common.Post.{Post, Any}
use geata.Common.Text.{Text, text, text_Key}
use geata.Lightning.Policies.{
  LdkReceiverConfig, ReceiverConfig, ldk, cashu, Protocols, Policy, is_network, lowercase_hex,
  is_strictly_sorted, mint_of, validate_ldk, validate_receiver, new,
}
use geata.Url.{Parsers}

abbrev pub IsReceiver : ReceiverConfig → Type 0
IsReceiver (ldk node) =
    (is_network node.network ≡ true)
    × ((length node.pay_to ≡ 66)
        × ((lowercase_hex node.pay_to ≡ true)
            × ((1 ≤ node.expiry_seconds) × (node.expiry_seconds ≤ 86400))))
IsReceiver (cashu mint network) = is_network network ≡ true

-- A receiver at a mint takes L402 only; L402 leaves `authorization` free.
abbrev pub IsBinding : Policy → Type 0
IsBinding policy =
    ((not (is_some (mint_of policy.receiver))
        || (policy.protocols.l402 && not policy.protocols.x402))
      ≡ true)
    × (((not policy.protocols.l402 || not (any (λ h. h == text "authorization") policy.headers))
          ≡ true)
        × (is_strictly_sorted policy.headers ≡ true))

abbrev pub IsPolicy : Policy → Type 0
IsPolicy policy =
    (1000 ≤ policy.amount_msat)
    × ((policy.amount_msat ≤ u64_max)
        × ((policy.protocols.x402 || policy.protocols.l402) ≡ true
            × (IsReceiver policy.receiver × IsBinding policy)))

module _ (parsers : Parsers) where
  validate_ldk-IsReceiver :
      (node : LdkReceiverConfig) → Post Any (λ _. IsReceiver (ldk node)) (validate_ldk parsers node)
  unfolding validate_ldk
  validate_ldk-IsReceiver node = record { holds = ground arith }

  validate_receiver-IsReceiver :
      (receiver : ReceiverConfig)
      → Post Any (λ _. IsReceiver receiver) (validate_receiver parsers receiver)
  unfolding validate_receiver
  validate_receiver-IsReceiver (ldk node) = validate_ldk-IsReceiver node
  validate_receiver-IsReceiver (cashu mint network) = record { holds = ground arith }

  pub new-IsPolicy :
      (price unit : Text) (receiver : ReceiverConfig) (origin : Text) (headers : List Text)
      (protocols : Protocols)
      → (protocols.x402 || protocols.l402) ≡ true
      → Post Any IsPolicy (new parsers price unit receiver origin headers protocols)
  unfolding new
  new-IsPolicy price unit receiver origin headers protocols h = record {
    holds =
        ground
          (arith, parse_uint-AtMost u64_max price, (validate_receiver-IsReceiver receiver).holds);
  }

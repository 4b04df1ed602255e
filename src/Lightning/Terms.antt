-- ===== src/Lightning/Terms.antt =====
-- The terms of a payment (`Requirements` in crates/geata/src/payments/lightning/mod.rs).
use geata.Common.{ℕ, Bool, true, false, ◌&&◌, Option, none, some, List, [], ◌∷◌, ◌==◌, nat_eq}
use geata.Common.Digits.{decimal}
use geata.Common.Text.{Text, text, text_Key}
use geata.Lightning.Policies.{ReceiverConfig, ldk, cashu, Policy, receiver_network}

-- With the headers of `BindingParams`.
pub record Extra : Type 0 where
  pub asset_transfer_method : Option Text
  pub payment_flow : Text
  pub request_hash : Text
  pub request_binding_profile : Text
  pub headers : List Text
  pub invoice : Text

pub record Requirements : Type 0 where
  pub scheme : Text
  pub network : Text
  pub amount : Text
  pub asset : Text
  pub pay_to : Text
  pub max_timeout_seconds : ℕ
  pub extra : Extra

abbrev binding_profile : List Text → Text
binding_profile [] = text "http:1"
binding_profile (_ ∷ _) = text "geata:http:2"

abbrev pay_to_of : ReceiverConfig → Text
pay_to_of (ldk node) = node.pay_to
pay_to_of (cashu _ _) = []

abbrev timeout_of : ReceiverConfig → ℕ
timeout_of (ldk node) = node.expiry_seconds
timeout_of (cashu _ _) = 0

unfoldable pub requirements : Policy → Text → Text → Requirements
unfolding receiver_network decimal
requirements policy hash invoice = record {
  scheme = text "exact";
  network = receiver_network policy.receiver;
  amount = decimal policy.amount_msat;
  asset = text "BTC";
  pay_to = pay_to_of policy.receiver;
  max_timeout_seconds = timeout_of policy.receiver;
  extra = record {
    asset_transfer_method = some (text "bolt11");
    payment_flow = text "upfront";
    request_hash = hash;
    request_binding_profile = binding_profile policy.headers;
    headers = policy.headers;
    invoice = invoice;
  };
}

abbrev same_texts : List Text → List Text → Bool
same_texts [] [] = true
same_texts [] (_ ∷ _) = false
same_texts (_ ∷ _) [] = false
same_texts (a ∷ xs) (b ∷ ys) = let rest = same_texts xs ys in a == b && rest

abbrev same_method : Option Text → Option Text → Bool
same_method none none = true
same_method none (some _) = false
same_method (some _) none = false
same_method (some a) (some b) = a == b

abbrev same_extra : Extra → Extra → Bool
same_extra a b =
    same_method a.asset_transfer_method b.asset_transfer_method
    && (a.payment_flow == b.payment_flow
        && (a.request_hash == b.request_hash
            && (a.request_binding_profile == b.request_binding_profile
                && (same_texts a.headers b.headers && a.invoice == b.invoice))))

-- The derived `PartialEq`.
abbrev pub same_requirements : Requirements → Requirements → Bool
same_requirements a b =
    a.scheme == b.scheme
    && (a.network == b.network
        && (a.amount == b.amount
            && (a.asset == b.asset
                && (a.pay_to == b.pay_to
                    && (nat_eq a.max_timeout_seconds b.max_timeout_seconds
                        && same_extra a.extra b.extra)))))

abbrev method_or_default : Option Text → Option Text
method_or_default none = some (text "bolt11")
method_or_default (some m) = some m

-- The accepted terms, where a transfer method that is left out is the usual one.
abbrev pub normalized : Requirements → Requirements
normalized r = record r {
  extra = record r.extra {
    asset_transfer_method = method_or_default r.extra.asset_transfer_method;
  };
}

-- The terms that a payment accepts are those of the policy for this request and the payment's invoice.
unfoldable pub is_required : Policy → Text → Requirements → Bool
unfolding requirements
is_required policy hash accepted =
    same_requirements (normalized accepted) (requirements policy hash accepted.extra.invoice)

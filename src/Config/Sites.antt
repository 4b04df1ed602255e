-- ===== src/Config/Sites.antt =====
-- `Config::parse` of crates/geata/src/config.rs: the blocks of a file, its receivers, payouts and sites.
use geata.Common.{
  ℕ, zero, suc, ◌*◌, Bool, false, ◌||◌, not, Option, none, some, List, [], ◌∷◌, ◌++◌, ok, err,
  length, ltb, leb, nat_eq, ◌==◌, if◌then◌else◌, is_some, ◌>>=◌, ◌>>◌, unwrap_or, all, any,
}
use geata.Common.Map.{Map, get, insert}
use geata.Common.Digits.{keep_some}
use geata.Common.Text.{
  Text, text, text_Key, byte_length, strip_prefix, to_ascii_lowercase, is_alphanumeric,
}
use geata.Capacity.{Capacity}
use geata.Capacity
use geata.RateLimit.{Limit, RateLimiter, with_prefix}
use geata.Config.Token.{out_of_fuel, Parsed, fail, Token, word, open_brace, close_brace, token_text}
use geata.Config.Tokenizer.{tokenize}
use geata.Config.Handler.{Handler, at_line, valid_domain}
use geata.Config.Directives.{RequestControls, Directives, guard, or_fail, texts}
use geata.Config.Block.{parse_directives}
use geata.Lightning.Policies.{ReceiverConfig, Policy, parse_receiver, check_site}
use geata.Payments.Price.{PaymentPolicy}
use geata.Payout.Policies.{PayoutPolicy}
use geata.Payout.Policies
use geata.Payout.Request.{PaymentRequest}
use geata.Url.{Parsers}

-- The limiters are what a site starts with; afterwards they are shared.
pub record Site : Type 0 where
  pub domain : Text
  pub https : Bool
  pub handler : Handler
  pub rate_limit : Option RateLimiter
  pub payment : Option PaymentPolicy
  pub lightning : Option Policy
  pub capacity : Option Capacity
  pub controls : RequestControls
  pub payment_verification : RateLimiter

pub record Config : Type 0 where
  pub sites : Map Text Site
  pub payouts : List PayoutPolicy

-- A site's address, the tokens of its block, and its line.
pub record Block : Type 0 where
  pub address : Text
  pub body : List Token
  pub line : ℕ

abbrev pub push_body : Token → Option (List Token × List Token) → Option (List Token × List Token)
push_body t none = none
push_body t (some (body, rest)) = some (t ∷ body, rest)

-- The texts of a block, and what stands behind its closing brace.
unfoldable pub block_body : List Token → Option (List Token × List Token)
block_body [] = none
block_body (t ∷ ts) =
    let rest = block_body ts in
    elim t.kind [ word _ ↦ push_body t rest | open_brace ↦ none | close_brace ↦ some ([], ts) ]

abbrev pub opened : ℕ → List Token → Parsed (List Token)
opened line [] = fail line "expected '{' after block name"
opened line (t ∷ ts) = elim t.kind [
  | word _ ↦ fail line "expected '{' after block name"
  | open_brace ↦ ok ts
  | close_brace ↦ fail line "expected '{' after block name"
]

-- The body of a block from its opening brace, and what stands behind it.
unfoldable pub block : ℕ → List Token → Parsed (List Token × List Token)
unfolding block_body
block line ts =
    opened line ts >>= λ rest. or_fail (block_body rest) line "expected '}' after block directives"

abbrev pub is_name : Text → Bool
is_name [] = false
is_name (c ∷ s) = all (λ c. is_alphanumeric c || (nat_eq c b'_' || nat_eq c b'-')) (c ∷ s)

-- The name of a Lightning receiver, and what stands behind it.
unfoldable pub receiver_name : ℕ → List Token → Parsed (Text × List Token)
unfolding is_alphanumeric
receiver_name line [] = fail line "expected lightning <name> { ... }"
receiver_name line (t ∷ ts) = do
  name ← or_fail (token_text t) line "expected lightning <name> { ... }"
  guard (is_name name) line "Lightning receiver name must use letters, digits, '_' or '-'"
  ok (name, ts)

module _ (parsers : Parsers) where
  abbrev pub add_receiver :
      ℕ → Text → List Token → Map Text ReceiverConfig → Parsed (Map Text ReceiverConfig)
  add_receiver line name body receivers = do
    receiver ← at_line line (parse_receiver parsers (texts body))
    guard (not (is_some (get name receivers))) line "duplicate Lightning receiver name"
    ok (insert name receiver receivers)

  -- A receiver's block behind the word `lightning`, added, and what stands behind it.
  unfoldable pub receiver_block :
      ℕ → List Token → Map Text ReceiverConfig → Parsed (Map Text ReceiverConfig × List Token)
  unfolding block receiver_name parse_receiver texts get insert
  receiver_block line ts receivers = do
    (name, more) ← receiver_name line ts
    (body, rest) ← block line more
    all_receivers ← add_receiver line name body receivers
    ok (all_receivers, rest)

  abbrev pub Blocks : Type 0
  Blocks = Map Text ReceiverConfig × List Block

  -- One turn of the first loop; `next` are the turns behind it.
  unfoldable pub blocks_turn :
      (List Token → Map Text ReceiverConfig → Parsed Blocks)
      → ℕ
      → List Token
      → Map Text ReceiverConfig
      → Text
      → Parsed Blocks
  unfolding receiver_block block
  blocks_turn next line ts receivers address =
      if address == text "lightning" then receiver else site
    where
      receiver : Parsed Blocks
      receiver = receiver_block line ts receivers >>= λ r. next r.1 r.0

      push_block : List Token → Blocks → Parsed Blocks
      push_block body (all_receivers, blocks) =
          ok (all_receivers, record { address = address; body = body; line = line } ∷ blocks)

      site : Parsed Blocks
      site = block line ts >>= λ b. next b.1 receivers >>= push_block b.0

  -- The first loop: the receivers, and the other blocks in their order.
  unfoldable pub blocks_from : ℕ → List Token → Map Text ReceiverConfig → Parsed Blocks
  unfolding blocks_turn
  blocks_from fuel [] receivers = ok (receivers, [])
  blocks_from zero (t ∷ ts) receivers = err out_of_fuel
  blocks_from (suc fuel) (t ∷ ts) receivers =
      or_fail (token_text t) t.line "expected a site address or lightning block"
      >>= blocks_turn (blocks_from fuel) t.line ts receivers

  abbrev pub max_requests : Option ℕ → Option ℕ
  max_requests max_inflight = keep_some (λ n. not (nat_eq n 0)) (some (unwrap_or max_inflight 128))

  abbrev capacity_of : ℕ → Option ℕ → Option Capacity
  capacity_of ipv6_prefix none = none
  capacity_of ipv6_prefix (some n) = some (record (Capacity.new n) { ipv6_prefix = ipv6_prefix })

  abbrev limiter_of : ℕ → ℕ → Option Limit → Option RateLimiter
  limiter_of now ipv6_prefix none = none
  limiter_of now ipv6_prefix (some limit) = some (with_prefix limit ipv6_prefix now)

  -- The site of a block's directives, with its limiters made at `now`.
  unfoldable pub site_of : ℕ → Text → Bool → Handler × (Option Policy × Directives) → Site
  unfolding with_prefix Capacity.new
  site_of now domain https (handler, (lightning, s)) = record {
    domain = domain;
    https = https;
    handler = handler;
    rate_limit = limiter_of now s.controls.ipv6_prefix s.rate_limit;
    payment = s.payment;
    lightning = lightning;
    capacity = capacity_of s.controls.ipv6_prefix (max_requests s.max_inflight);
    controls = s.controls;
    payment_verification = with_prefix s.controls.payment_limit s.controls.ipv6_prefix now;
  }

  abbrev pub check_policy : ℕ → Text → Bool → Option Policy → Parsed (Unit {0})
  check_policy line domain https none = ok tt
  check_policy line domain https (some policy) =
      at_line line (check_site parsers policy domain https)

  abbrev or_prefix : Option Text → Option Text → Text → Text
  or_prefix (some s) other whole = s
  or_prefix none (some s) whole = s
  or_prefix none none whole = whole

  unfoldable pub block_domain : Text → Text
  unfolding strip_prefix to_ascii_lowercase
  block_domain address = to_ascii_lowercase (
      or_prefix (strip_prefix (text "http://") address) (strip_prefix (text "https://") address)
        address)

  -- `!address.starts_with("http://")`
  unfoldable pub block_https : Text → Bool
  unfolding strip_prefix
  block_https address = not (is_some (strip_prefix (text "http://") address))

  unfoldable pub add_site :
      ℕ → Map Text ReceiverConfig → Block → Map Text Site → Parsed (Map Text Site)
  unfolding block_domain block_https valid_domain parse_directives check_site site_of get insert
  add_site now receivers b sites = do
    let domain : Text = block_domain b.address
    let https : Bool = block_https b.address
    guard (valid_domain parsers domain https) b.line "expected a domain (e.g. example.com)"
    parsed ← parse_directives parsers b.body b.line receivers domain https
    check_policy b.line domain https parsed.1.0
    guard (not (is_some (get domain sites))) b.line "duplicate site"
    ok (insert domain (site_of now domain https parsed) sites)

module _ (parsers : Parsers) (from_str : Text → Option PaymentRequest) where
  unfoldable pub add_payout : Block → List PayoutPolicy → Parsed (List PayoutPolicy)
  unfolding Policies.parse texts
  add_payout b payouts = do
    payout ← at_line b.line (Policies.parse parsers from_str (texts b.body))
    guard (not (any (λ p. p.mint == payout.mint) payouts)) b.line "duplicate payout mint"
    guard (ltb (length payouts) 16) b.line "at most 16 payout mints are supported"
    ok (payouts ++ (payout ∷ []))

  unfoldable pub add_block : ℕ → Map Text ReceiverConfig → Block → Config → Parsed Config
  unfolding add_payout add_site
  add_block now receivers b config =
      if b.address == text "cashu_payout"
      then (add_payout b config.payouts >>= λ payouts. ok (record config { payouts = payouts }))
      else (add_site parsers now receivers b config.sites >>= λ sites.
          ok (record config { sites = sites }))

  -- The second loop.
  unfoldable pub sites_from : ℕ → Map Text ReceiverConfig → List Block → Config → Parsed Config
  unfolding add_block
  sites_from now receivers [] config = ok config
  sites_from now receivers (b ∷ blocks) config =
      add_block now receivers b config >>= sites_from now receivers blocks

  abbrev pub has_sites : Config → Parsed Config
  has_sites config = elim config.sites [
    | [] ↦ fail 1 "add at least one site: example.com { reverse_proxy localhost:3000 }"
    | _ ∷ _ ↦ ok config
  ]

  -- `Config::parse`, at a time of the clock that limiters read.
  unfoldable pub parse : ℕ → Text → Parsed Config
  unfolding byte_length tokenize blocks_from sites_from
  parse now input = do
    guard (leb (byte_length input) (1024 * 1024)) 1 "configuration exceeds 1 MiB"
    tokens ← tokenize parsers.json_string input
    (receivers, blocks) ← blocks_from parsers (length tokens) tokens []
    config ← sites_from now receivers blocks (record { sites = []; payouts = [] })
    has_sites config

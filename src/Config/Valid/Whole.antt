-- ===== src/Config/Valid/Whole.antt =====
-- `Config::parse` ends, and the configuration that it answers is valid.
use geata.Common.{
  ℕ, zero, suc, ◌≤◌, ◌≡◌, ◌≢◌, subst, ◌==◌, Option, none, some, List, [], ◌∷◌, ok, err, arith,
  length, leb, is_some, not, ◌*◌,
}
use geata.Common.Map.{Map, get}
use geata.Common.Post.{result-Post, ok-Post, bind-Post, if-Post, map-Post}
use geata.Common.Text.{Text, text, text_Key, byte_length}
use geata.Config.Token.{
  Parsed, Token, TokenKind, word, open_brace, close_brace, token_text, out_of_fuel,
}
use geata.Config.Tokenizer.{tokenize}
use geata.Config.Tokenizer.Total.{tokenize_total}
use geata.Config.Handler.{at_line}
use geata.Config.Directives.{texts, or_fail}
use geata.Config.Sites.{
  Config, push_body, block_body, opened, block, receiver_name, add_receiver, receiver_block, Blocks,
  blocks_turn, blocks_from, sites_from, has_sites, parse,
}
use geata.Config.Outcome.{Holds, fail-Holds, guard-Holds, or_fail-Holds, at_line-Holds, Holds-ne}
use geata.Config.Valid.{IsOptional}
use geata.Config.Valid.Sites.{IsConfig, sites_from-IsConfig}
use geata.Lightning.Policies.{ReceiverConfig, parse_receiver}
use geata.Payout.Request.{PaymentRequest}
use geata.Url.{Parsers}

-- What is left behind a piece is no longer than `n`.
abbrev Left : {A : Type 0} → ℕ → A × List Token → Type 0
Left n (_, rest) = length rest ≤ n

push_body-Left :
    (n : ℕ) (t : Token) (o : Option (List Token × List Token))
    → IsOptional (Left n) o
    → IsOptional (Left (suc n)) (push_body t o)
push_body-Left n t none h = tt
push_body-Left n t (some (body, rest)) h = omega (arith, h)

block_body-Left : (ts : List Token) → IsOptional (Left (length ts)) (block_body ts)
unfolding block_body
block_body-Left [] = tt
block_body-Left (t ∷ ts) =
    go t.kind (push_body-Left (length ts) t (block_body ts) (block_body-Left ts))
  where
    go :
        (k : TokenKind)
        → IsOptional (Left (suc (length ts))) (push_body t (block_body ts))
        → IsOptional (Left (suc (length ts))) (elim k [
          | word _ ↦ push_body t (block_body ts)
          | open_brace ↦ none
          | close_brace ↦ some ([], ts)
        ])
    go (word _) pushed = pushed
    go open_brace pushed = tt
    go close_brace pushed = omega arith

opened-Left :
    (line : ℕ) (ts : List Token) → Holds (λ rest. length rest ≤ length ts) (opened line ts)
opened-Left line [] = fail-Holds line _
opened-Left line (t ∷ ts) = record { holds = ground arith }

or_fail-Left :
    {A : Type 0} (n line : ℕ) (o : Option (A × List Token))
    → IsOptional (Left n) o
    → Holds (Left n) (or_fail o line "expected '}' after block directives")
or_fail-Left n line none h = fail-Holds line _
or_fail-Left n line (some r) h = ok-Post h

block-Left : (line : ℕ) (ts : List Token) → Holds (Left (length ts)) (block line ts)
unfolding block
block-Left line ts = bind-Post (opened line ts) _ (opened-Left line ts) λ rest le.
    map-Post _ (or_fail-Left (length rest) line (block_body rest) (block_body-Left rest))
      λ r h. omega (arith, h, le)

receiver_name-Left : (line : ℕ) (ts : List Token) → Holds (Left (length ts)) (receiver_name line ts)
unfolding receiver_name
receiver_name-Left line [] = fail-Holds line _
receiver_name-Left line (t ∷ ts) = record { holds = ground arith }

module _ (parsers : Parsers) where
  add_receiver-ends :
      (line : ℕ) (name : Text) (body : List Token) (receivers : Map Text ReceiverConfig)
      → Holds (λ _. Unit {0}) (add_receiver parsers line name body receivers)
  add_receiver-ends line name body receivers =
      bind-Post (at_line line (parse_receiver parsers (texts body))) _
        (at_line-Holds {P = λ _. Unit {0}} line _ (result-Post _))
        λ receiver _.
          guard-Holds (not (is_some (get name receivers))) line "duplicate Lightning receiver name"
            _ λ _. ok-Post tt

  receiver_block-Left :
      (line : ℕ) (ts : List Token) (receivers : Map Text ReceiverConfig)
      → Holds (Left (length ts)) (receiver_block parsers line ts receivers)
  unfolding receiver_block
  receiver_block-Left line ts receivers =
      bind-Post (receiver_name line ts) _ (receiver_name-Left line ts) λ named le.
        bind-Post (block line named.1) _ (block-Left line named.1) λ body le'.
          bind-Post (add_receiver parsers line named.0 body.0 receivers) _
            (add_receiver-ends line named.0 body.0 receivers)
            λ all_receivers _. ok-Post (omega (arith, le, le'))

  blocks_turn-ends :
      (next : List Token → Map Text ReceiverConfig → Parsed (Blocks parsers)) (line : ℕ)
      (ts : List Token) (receivers : Map Text ReceiverConfig) (address : Text)
      → ((rest : List Token) (more : Map Text ReceiverConfig)
          → length rest ≤ length ts
          → Holds (λ _. Unit {0}) (next rest more))
      → Holds (λ _. Unit {0}) (blocks_turn parsers next line ts receivers address)
  unfolding blocks_turn
  blocks_turn-ends next line ts receivers address ends =
      if-Post (address == text "lightning") _ _
        (λ _.
          bind-Post (receiver_block parsers line ts receivers) _
            (receiver_block-Left line ts receivers) λ r le. ends r.1 r.0 le)
        (λ _.
          bind-Post (block line ts) _ (block-Left line ts)
            λ b le. bind-Post (next b.1 receivers) _ (ends b.1 receivers le) λ r _. ok-Post tt)

  blocks_from-ends :
      (fuel : ℕ) (ts : List Token) (receivers : Map Text ReceiverConfig)
      → length ts ≤ fuel
      → Holds (λ _. Unit {0}) (blocks_from parsers fuel ts receivers)
  unfolding blocks_from
  blocks_from-ends fuel [] receivers le = ok-Post tt
  blocks_from-ends zero (t ∷ ts) receivers le = absurd (omega arith)
  blocks_from-ends (suc fuel) (t ∷ ts) receivers le =
      bind-Post (or_fail (token_text t) t.line "expected a site address or lightning block") _
        (or_fail-Holds (token_text t) t.line "expected a site address or lightning block")
        λ address _.
          blocks_turn-ends (blocks_from parsers fuel) t.line ts receivers address
            λ rest more le'. blocks_from-ends fuel rest more (omega (arith, le, le'))

module _ (parsers : Parsers) (from_str : Text → Option PaymentRequest) where
  abbrev start : Config
  start = record { sites = []; payouts = [] }

  start-IsConfig : IsConfig parsers from_str start
  start-IsConfig = ground arith

  tokens-end : (r : Parsed (List Token)) → r ≢ err out_of_fuel → Holds (λ _. Unit {0}) r
  tokens-end (ok ts) h = ok-Post tt
  tokens-end (err e) h = record { holds = λ same. h (cc) }

  has_sites-IsConfig :
      (config : Config)
      → IsConfig parsers from_str config
      → Holds (IsConfig parsers from_str) (has_sites parsers from_str config)
  has_sites-IsConfig config h = record { holds = ground arith }

  parse-Holds :
      (now : ℕ) (input : Text)
      → Holds (IsConfig parsers from_str) (parse parsers from_str now input)
  unfolding parse
  parse-Holds now input =
      guard-Holds (leb (byte_length input) (1024 * 1024)) 1 "configuration exceeds 1 MiB" _ λ _.
        bind-Post (tokenize parsers.json_string input) _
          (tokens-end _ (tokenize_total parsers.json_string input))
          λ tokens _.
            bind-Post (blocks_from parsers (length tokens) tokens []) _
              (blocks_from-ends parsers (length tokens) tokens [] (omega arith))
              λ r _.
                bind-Post (sites_from parsers from_str now r.0 r.1 start) _
                  (sites_from-IsConfig parsers from_str now r.0 r.1 start start-IsConfig)
                  λ config h. has_sites-IsConfig config h

  -- Every file is read to the end or refused with an error of its own: no loop of the parser runs on.
  pub parse_total : (now : ℕ) (input : Text) → parse parsers from_str now input ≢ err out_of_fuel
  parse_total now input = Holds-ne _ (parse-Holds now input)

  -- What `Config::parse` answers is valid, whatever the other parsers answer. The sites have distinct keys,
  -- each is filed under its own domain, and the domain is one that a site may have. A backend has a port; a response has a
  -- status from 200 to 599, and no body with 204, 205 or 304. Every limit, with those of the limiters that
  -- are made, is from 1 to the greatest `u32`, and a Cashu price too. The IPv6 prefix is at most 128, and all limiters of
  -- the site use it. Capacity, where it is not off, is from 1 to a million, all of it free. A Lightning policy asks at
  -- least one sat, switches a protocol on, has sorted distinct headers, leaves `authorization` free for
  -- L402, takes L402 alone with a mint's receiver, and names the site as its origin; an LDK receiver bounds an
  -- invoice's expiry by a day. At most 16 payouts have distinct mints, each with a positive amount that fits with its
  -- fee, an interval of at most a year, a positive threshold, and one of the two.
  pub parse-IsConfig :
      (now : ℕ) (input : Text) (config : Config)
      → parse parsers from_str now input ≡ ok config
      → IsConfig parsers from_str config
  parse-IsConfig now input config e =
      value_of (parse parsers from_str now input) config (parse-Holds now input) e
    where
      ok_injective : (d c : Config) → (let r : Parsed Config = ok d in r ≡ ok c) → d ≡ c
      ok_injective d c e = cc

      value_of :
          (r : Parsed Config) (c : Config)
          → Holds (IsConfig parsers from_str) r
          → r ≡ ok c
          → IsConfig parsers from_str c
      value_of (ok d) c h e = subst (IsConfig parsers from_str) (ok_injective d c e) h.holds
      value_of (err x) c h e = absurd (cc)

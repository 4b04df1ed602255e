-- ===== src/Config/Valid/Sites.antt =====
-- A site and a payout that a block is read as are valid.
use geata.Common.{
  ℕ, ◌≤◌, ◌≡◌, refl, Bool, true, false, ◌||◌, not, Option, none, some, List, [], ◌∷◌, ◌++◌, ok,
  arith, length, ◌==◌, is_some, any, ltb, length-append, All,
}
use geata.Common.Map.{Map, get, Distinct, Every, insert-Every, insert-Distinct}
use geata.Common.Post.{ok-Post, bind-Post, if-Post}
use geata.Common.Text.{Text, text, text_Key}
use geata.Capacity.{Capacity}
use geata.RateLimit.{RateLimiter}
use geata.Config.Handler.{Handler, at_line, valid_domain}
use geata.Config.Directives.{Directives, RequestControls, texts}
use geata.Config.Block.{parse_directives}
use geata.Config.Sites.{
  Site, Config, Block, site_of, check_policy, block_domain, block_https, add_site, add_payout,
  add_block, sites_from,
}
use geata.Config.Outcome.{Holds, guard-Holds, at_line-Holds}
use geata.Config.Valid.{IsOptional, IsHandler, IsPrice, IsLimit, IsControls}
use geata.Config.Valid.Blocks.{IsBlock, parse_directives-IsBlock}
use geata.Lightning.Policies.{ReceiverConfig, Policy, check_site}
use geata.Lightning.Policies.Valid.{IsPolicy}
use geata.Payout.Policies.{PayoutPolicy}
use geata.Payout.Policies
use geata.Payout.Policies.Valid.{IsPayout, parse-IsPayout}
use geata.Payout.Request.{PaymentRequest}
use geata.Url.{Parsers}

-- A limiter of a site has a limit in range and groups addresses by the site's prefix.
abbrev pub IsLimiter : RequestControls → RateLimiter → Type 0
IsLimiter controls r = IsLimit r.limit × (r.ipv6_prefix ≡ controls.ipv6_prefix)

abbrev pub IsCapacity : RequestControls → Capacity → Type 0
IsCapacity controls c =
    (1 ≤ c.max_permits)
    × ((c.max_permits ≤ 1_000_000)
        × ((c.available ≡ c.max_permits) × (c.ipv6_prefix ≡ controls.ipv6_prefix)))

module _ (parsers : Parsers) where
  abbrev pub IsSite : Text → Site → Type 0
  IsSite domain s =
      (s.domain ≡ domain)
      × ((valid_domain parsers s.domain s.https ≡ true)
          × (IsHandler s.handler
              × (IsOptional (IsLimiter s.controls) s.rate_limit
                  × (IsOptional IsPrice s.payment
                      × (IsOptional
                            (λ p. IsPolicy p × (check_site parsers p s.domain s.https ≡ ok tt))
                            s.lightning
                          × (IsOptional (IsCapacity s.controls) s.capacity
                              × (IsControls s.controls
                                  × IsLimiter s.controls s.payment_verification)))))))

  abbrev IsSites : Map Text Site → Type 0
  IsSites sites = Distinct sites × Every IsSite sites

  check_policy-ok :
      (line : ℕ) (domain : Text) (https : Bool) (o : Option Policy)
      → Holds
          (λ _. IsOptional (λ p. check_site parsers p domain https ≡ ok tt) o)
          (check_policy parsers line domain https o)
  check_policy-ok line domain https none = ok-Post tt
  check_policy-ok line domain https (some p) = record { holds = ground arith }

  both :
      {A : Type 0} (P Q : A → Type 0) (o : Option A)
      → IsOptional P o
      → IsOptional Q o
      → IsOptional (λ a. P a × Q a) o
  both P Q none p q = tt
  both P Q (some a) p q = (p, q)

  site_of-IsSite :
      (now : ℕ) (domain : Text) (https : Bool) (r : Handler × (Option Policy × Directives))
      → valid_domain parsers domain https ≡ true
      → IsBlock r
      → IsOptional (λ p. check_site parsers p domain https ≡ ok tt) r.1.0
      → IsSite domain (site_of parsers now domain https r)
  unfolding site_of
  site_of-IsSite now domain https (handler, (lightning, s)) valid h c =
      let policy : IsOptional (λ p. IsPolicy p × (check_site parsers p domain https ≡ ok tt))
          lightning =
        both IsPolicy _ lightning h.1.0 c in
      ground (arith, policy)

  add_site-IsSites :
      (now : ℕ) (receivers : Map Text ReceiverConfig) (b : Block) (sites : Map Text Site)
      → IsSites sites
      → Holds IsSites (add_site parsers now receivers b sites)
  unfolding add_site
  add_site-IsSites now receivers b sites h =
      let domain : Text = block_domain parsers b.address in
      let https : Bool = block_https parsers b.address in
      guard-Holds (valid_domain parsers domain https) b.line "expected a domain (e.g. example.com)"
        _
        λ valid.
          bind-Post (parse_directives parsers b.body b.line receivers domain https) _
            (parse_directives-IsBlock parsers b.body b.line receivers domain https)
            λ r block.
              bind-Post (check_policy parsers b.line domain https r.1.0) _
                (check_policy-ok b.line domain https r.1.0)
                λ _ c. guard-Holds (not (is_some (get domain sites))) b.line "duplicate site" _ λ _.
                  let site : Site = site_of parsers now domain https r in
                  ok-Post (
                    insert-Distinct domain site sites h.0,
                    insert-Every IsSite domain site sites
                        (site_of-IsSite now domain https r valid block c) h.1,
                  )

abbrev DistinctMints : List PayoutPolicy → Type 0
DistinctMints [] = Unit
DistinctMints (p ∷ ps) = (any (λ q. q.mint == p.mint) ps ≡ false) × DistinctMints ps

-- At most 16 payouts, of distinct mints.
abbrev pub IsPayouts : List PayoutPolicy → Type 0
IsPayouts payouts = (length payouts ≤ 16) × (DistinctMints payouts × All IsPayout payouts)

any-append :
    {A : Type 0} (p : A → Bool) (xs ys : List A) → any p (xs ++ ys) ≡ (any p xs || any p ys)
any-append p [] ys = refl
any-append p (x ∷ xs) ys = ground (arith, any-append p xs ys)

DistinctMints-append :
    (payout : PayoutPolicy) (payouts : List PayoutPolicy)
    → any (λ p. p.mint == payout.mint) payouts ≡ false
    → DistinctMints payouts
    → DistinctMints (payouts ++ (payout ∷ []))
DistinctMints-append payout [] e h = ground arith
DistinctMints-append payout (p ∷ ps) e h = ground (
  arith,
  any-append (λ q. q.mint == p.mint) ps (payout ∷ []),
  DistinctMints-append payout ps,
  text_Key.same_iff p.mint payout.mint,
  text_Key.same_iff payout.mint p.mint,
)

All-append :
    {A : Type 0} (P : A → Type 0) (xs : List A) (x : A) → All P xs → P x → All P (xs ++ (x ∷ []))
All-append P [] x h p = (p, tt)
All-append P (y ∷ ys) x h p = (h.0, All-append P ys x h.1 p)

module _ (parsers : Parsers) (from_str : Text → Option PaymentRequest) where
  add_payout-IsPayouts :
      (b : Block) (payouts : List PayoutPolicy)
      → IsPayouts payouts
      → Holds IsPayouts (add_payout parsers from_str b payouts)
  unfolding add_payout
  add_payout-IsPayouts b payouts h =
      bind-Post (at_line b.line (Policies.parse parsers from_str (texts b.body))) _
        (at_line-Holds b.line _ (parse-IsPayout parsers from_str (texts b.body)))
        λ payout p.
          guard-Holds (not (any (λ q. q.mint == payout.mint) payouts)) b.line
            "duplicate payout mint" _
            λ new.
              guard-Holds (ltb (length payouts) 16) b.line "at most 16 payout mints are supported" _
                λ few. ok-Post (
                  ground (arith, few, length-append payouts (payout ∷ [])),
                  (
                    DistinctMints-append payout payouts (ground (arith, new)) h.1.0,
                    All-append IsPayout payouts payout h.1.1 p,
                  ),
                )

  -- What is asked of a configuration.
  abbrev pub IsConfig : Config → Type 0
  IsConfig config = IsSites parsers config.sites × IsPayouts config.payouts

  add_block-IsConfig :
      (now : ℕ) (receivers : Map Text ReceiverConfig) (b : Block) (config : Config)
      → IsConfig config
      → Holds IsConfig (add_block parsers from_str now receivers b config)
  unfolding add_block
  add_block-IsConfig now receivers b config h =
      if-Post (b.address == text "cashu_payout") _ _
        (λ _.
          bind-Post (add_payout parsers from_str b config.payouts) _
            (add_payout-IsPayouts b config.payouts h.1) λ payouts p. ok-Post (h.0, p))
        (λ _.
          bind-Post (add_site parsers now receivers b config.sites) _
            (add_site-IsSites parsers now receivers b config.sites h.0) λ sites s. ok-Post (s, h.1))

  pub sites_from-IsConfig :
      (now : ℕ) (receivers : Map Text ReceiverConfig) (blocks : List Block) (config : Config)
      → IsConfig config
      → Holds IsConfig (sites_from parsers from_str now receivers blocks config)
  unfolding sites_from
  sites_from-IsConfig now receivers [] config h = ok-Post h
  sites_from-IsConfig now receivers (b ∷ blocks) config h =
      bind-Post (add_block parsers from_str now receivers b config) _
        (add_block-IsConfig now receivers b config h) (sites_from-IsConfig now receivers blocks)

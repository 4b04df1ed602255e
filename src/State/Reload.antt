-- ===== src/State/Reload.antt =====
-- What a reload keeps and what it takes from the new file (crates/geata/src/state.rs).
use geata.Common.{
  ℕ, ◌≡◌, refl, sym, ap, Bool, Option, none, some, List, [], ◌∷◌, arith, same_key_refl,
}
use geata.Common.Map.{Map, get, Distinct, Every}
use geata.Common.Text.{Text, text_Key}
use geata.Capacity.{Capacity}
use geata.RateLimit.{Limit, RateLimiter}
use geata.Config.Sites.{Site, Config}
use geata.Config.Handler.{Handler}
use geata.Config.Directives.{RequestControls}
use geata.Lightning.Policies.{Policy}
use geata.Payments.Price.{PaymentPolicy}
use geata.State.{
  keep_limiter, keep_optional, keep_capacity, reload_site, reload_sites, replace_config,
}

-- The settings of a limiter and of a site: their running state is forgotten.
abbrev pub limiter_settings : RateLimiter → Limit × ℕ
limiter_settings r = (r.limit, r.ipv6_prefix)

abbrev pub capacity_settings : Capacity → ℕ × ℕ
capacity_settings c = (c.max_permits, c.ipv6_prefix)

abbrev pub optional_settings : {A B : Type 0} → (A → B) → Option A → Option B
optional_settings f none = none
optional_settings f (some a) = some (f a)

keep_limiter-settings :
    (old next : RateLimiter) → limiter_settings (keep_limiter old next) ≡ limiter_settings next
unfolding keep_limiter
keep_limiter-settings old next = ground arith

keep_capacity-settings :
    (old next : Capacity) → capacity_settings (keep_capacity old next) ≡ capacity_settings next
unfolding keep_capacity
keep_capacity-settings old next = ground arith

keep_limiter-same :
    (old next : RateLimiter)
    → limiter_settings old ≡ limiter_settings next
    → keep_limiter old next ≡ old
unfolding keep_limiter
keep_limiter-same old next h = ground arith

keep_capacity-same :
    (old next : Capacity)
    → capacity_settings old ≡ capacity_settings next
    → keep_capacity old next ≡ old
unfolding keep_capacity
keep_capacity-same old next h = ground arith

keep_optional-settings :
    {A B : Type 0} (f : A → B) (keep : A → A → A) (old next : Option A)
    → ((a b : A) → f (keep a b) ≡ f b)
    → optional_settings f (keep_optional keep old next) ≡ optional_settings f next
keep_optional-settings f keep old none h = refl
keep_optional-settings f keep none (some b) h = refl
keep_optional-settings f keep (some a) (some b) h = ap (λ x. some x) (h a b)

keep_optional-same :
    {A B : Type 0} (f : A → B) (keep : A → A → A) (old next : Option A)
    → ((a b : A) → f a ≡ f b → keep a b ≡ a)
    → optional_settings f old ≡ optional_settings f next
    → keep_optional keep old next ≡ old
keep_optional-same f keep none none h e = refl
keep_optional-same f keep (some a) none h e = absurd (cc)
keep_optional-same f keep none (some b) h e = absurd (cc)
keep_optional-same f keep (some a) (some b) h e =
    ap (λ x. some x) (h a b (some_injective (f a) (f b) e))
  where
    some_injective : {B : Type 0} (x y : B) → (let o : Option B = some x in o ≡ some y) → x ≡ y
    some_injective x y e = cc

-- A site without the state of its limiters.
pub record SiteSettings : Type 0 where
  pub domain : Text
  pub https : Bool
  pub handler : Handler
  pub rate_limit : Option (Limit × ℕ)
  pub payment : Option PaymentPolicy
  pub lightning : Option Policy
  pub capacity : Option (ℕ × ℕ)
  pub controls : RequestControls
  pub payment_verification : Limit × ℕ

abbrev pub site_settings : Site → SiteSettings
site_settings s = record {
  domain = s.domain;
  https = s.https;
  handler = s.handler;
  rate_limit = optional_settings limiter_settings s.rate_limit;
  payment = s.payment;
  lightning = s.lightning;
  capacity = optional_settings capacity_settings s.capacity;
  controls = s.controls;
  payment_verification = limiter_settings s.payment_verification;
}

abbrev pub settings : Map Text Site → Map Text SiteSettings
settings [] = []
settings ((domain, site) ∷ sites) = (domain, site_settings site) ∷ settings sites

reload_site-settings :
    (old : Option Site) (site : Site) → site_settings (reload_site old site) ≡ site_settings site
reload_site-settings none site = refl
reload_site-settings (some old) site =
    rw
      (
        keep_limiter-settings old.payment_verification site.payment_verification,
        keep_optional-settings limiter_settings keep_limiter old.rate_limit site.rate_limit
            keep_limiter-settings,
        keep_optional-settings capacity_settings keep_capacity old.capacity site.capacity
            keep_capacity-settings,
      )
      refl

reload_sites-settings :
    (previous sites : Map Text Site) → settings (reload_sites previous sites) ≡ settings sites
unfolding reload_sites
reload_sites-settings previous [] = refl
reload_sites-settings previous ((domain, site) ∷ sites) =
    rw (reload_site-settings (get domain previous) site, reload_sites-settings previous sites) refl

-- After a reload the settings in force are those of the new file, at every site and in its order:
-- what is kept of the running configuration is only the state of limiters with the same settings.
pub replace_config-settings :
    (previous config : Config)
    → settings (replace_config previous config).sites ≡ settings config.sites
unfolding replace_config
replace_config-settings previous config = reload_sites-settings previous.sites config.sites

reload_site-same :
    (old site : Site) → site_settings old ≡ site_settings site → reload_site (some old) site ≡ old
reload_site-same old site h =
    rw
      (
        keep_limiter-same old.payment_verification site.payment_verification
            (ap (λ s. s.payment_verification) h),
        keep_optional-same limiter_settings keep_limiter old.rate_limit site.rate_limit
            keep_limiter-same (ap (λ s. s.rate_limit) h),
        keep_optional-same capacity_settings keep_capacity old.capacity site.capacity
            keep_capacity-same (ap (λ s. s.capacity) h),
        sym (ap (λ s. s.domain) h),
        sym (ap (λ s. s.https) h),
        sym (ap (λ s. s.handler) h),
        sym (ap (λ s. s.payment) h),
        sym (ap (λ s. s.lightning) h),
        sym (ap (λ s. s.controls) h),
      )
      refl

-- Every entry of `rows` is found in a map.
abbrev Found : Map Text Site → Map Text Site → Type 0
Found m rows = Every (λ domain site. get domain m ≡ some site) rows

Found-cons :
    (k : Text) (v : Site) (m rows : Map Text Site)
    → get k m ≡ none
    → Found m rows
    → Found ((k, v) ∷ m) rows
unfolding get
Found-cons k v m [] h f = tt
Found-cons k v m ((domain, site) ∷ rows) h f =
    (ground (arith, text_Key.same_iff k domain, f.0), Found-cons k v m rows h f.1)

Found-all : (m : Map Text Site) → Distinct m → Found m m
unfolding get
Found-all [] d = tt
Found-all ((k, v) ∷ m) d =
    (ground (arith, same_key_refl k), Found-cons k v m m d.0 (Found-all m d.1))

reload_sites-same :
    (previous rows sites : Map Text Site)
    → Found previous rows
    → settings rows ≡ settings sites
    → reload_sites previous sites ≡ rows
unfolding reload_sites
reload_sites-same previous [] [] f h = refl
reload_sites-same previous [] ((d, site) ∷ sites) f h = absurd (cc)
reload_sites-same previous ((d, old) ∷ rows) [] f h = absurd (cc)
reload_sites-same previous ((d, old) ∷ rows) ((e, site) ∷ sites) f h =
    let parts =
      cons_injective (d, site_settings old) (e, site_settings site) (settings rows) (settings sites)
        h in
    rw
      (
        sym (ap (λ p. p.0) parts.0),
        f.0,
        reload_site-same old site (ap (λ p. p.1) parts.0),
        reload_sites-same previous rows sites f.1 parts.1,
      )
      refl
  where
    cons_injective : {A : Type 0} (x y : A) (xs ys : List A) → x ∷ xs ≡ y ∷ ys → (x ≡ y) × (xs ≡ ys)
    cons_injective x y xs ys e = (cc, cc)

-- A reload of a file whose settings have not changed changes no site: every limiter goes on from
-- where it stands, so that no client regains a quota and no permit that is out is forgotten.
pub replace_config-same :
    (previous config : Config)
    → Distinct previous.sites
    → settings previous.sites ≡ settings config.sites
    → (replace_config previous config).sites ≡ previous.sites
unfolding replace_config
replace_config-same previous config d h =
    reload_sites-same previous.sites previous.sites config.sites (Found-all previous.sites d) h

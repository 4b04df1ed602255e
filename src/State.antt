-- ===== src/State.antt =====
-- `replace_config` of crates/geata/src/state.rs: a reload of the configuration. A site of the running
-- configuration holds its limiters as they are; an `Arc` that is kept is that value.
pub mod Reload
use geata.Common.{
  ℕ, Bool, true, false, ◌&&◌, Option, none, some, List, [], ◌∷◌, nat_eq, if◌then◌else◌,
}
use geata.Common.Map.{Map, get}
use geata.Common.Text.{Text, text_Key}
use geata.Capacity.{Capacity}
use geata.RateLimit.{Limit, RateLimiter}
use geata.Config.Sites.{Site, Config}

unfoldable pub same_limit : Limit → Limit → Bool
same_limit a b = nat_eq a.per_second b.per_second && nat_eq a.burst b.burst

-- The old limiter, where it has the limit and the prefix of the new one.
unfoldable pub keep_limiter : RateLimiter → RateLimiter → RateLimiter
unfolding same_limit
keep_limiter old next =
    if same_limit next.limit old.limit && nat_eq next.ipv6_prefix old.ipv6_prefix then old else next

abbrev pub keep_optional : {A : Type 0} → (A → A → A) → Option A → Option A → Option A
keep_optional keep old none = none
keep_optional keep none (some next) = some next
keep_optional keep (some old) (some next) = some (keep old next)

unfoldable pub keep_capacity : Capacity → Capacity → Capacity
keep_capacity old next =
    if nat_eq next.max_permits old.max_permits && nat_eq next.ipv6_prefix old.ipv6_prefix
    then old
    else next

abbrev pub reload_site : Option Site → Site → Site
reload_site none site = site
reload_site (some old) site = record site {
  payment_verification = keep_limiter old.payment_verification site.payment_verification;
  capacity = keep_optional keep_capacity old.capacity site.capacity;
  rate_limit = keep_optional keep_limiter old.rate_limit site.rate_limit;
}

unfoldable pub reload_sites : Map Text Site → Map Text Site → Map Text Site
unfolding get keep_limiter keep_capacity
reload_sites previous [] = []
reload_sites previous ((domain, site) ∷ sites) =
    (domain, reload_site (get domain previous) site) ∷ reload_sites previous sites

-- `replace_config`: the configuration that is stored, from the one that runs and the one that was read.
unfoldable pub replace_config : Config → Config → Config
unfolding reload_sites
replace_config previous config = record config { sites = reload_sites previous.sites config.sites }

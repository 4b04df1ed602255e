-- ===== src/Tests/State.antt =====
-- Tests of reloads: the example file is read again, and one site has given away a permit since.
use geata.Common.{ℕ, false, ◌≡◌, refl, some, none, [], ◌∷◌}
use geata.Common.Map.{get, insert}
use geata.Common.Text.{text, text_Key}
use geata.Capacity.{Capacity, CapacityPermit}
use geata.Capacity
use geata.Net.{v4}
use geata.Config.Handler.{respond}
use geata.Config.Directives.{default_controls}
use geata.Config.Sites.{Site, Config}
use geata.RateLimit.{with_prefix}
use geata.State.{replace_config}
use geata.State.Reload.{settings, replace_config-settings, replace_config-same}

abbrev site : ℕ → Capacity → Site
site now c = record {
  domain = text "a.com";
  https = false;
  handler = respond (text "ok") 200;
  rate_limit = some (with_prefix (record { per_second = 5; burst = 10 }) 64 now);
  payment = none;
  lightning = none;
  capacity = some c;
  controls = default_controls;
  payment_verification = with_prefix default_controls.payment_limit 64 now;
}

abbrev running : Config
running = record {
  sites = (text "a.com", site 0 (Capacity.try_acquire (Capacity.new 4) (v4 7)).0) ∷ [];
  payouts = [];
}

abbrev reread : Config
reread = record { sites = (text "a.com", site 9 (Capacity.new 4)) ∷ []; payouts = [] }

abbrev changed : Config
changed = record { sites = (text "a.com", site 9 (Capacity.new 5)) ∷ []; payouts = [] }

replace_config-settings_example :
    settings (replace_config running changed).sites ≡ settings changed.sites
replace_config-settings_example = replace_config-settings running changed

replace_config-same_example : (replace_config running reread).sites ≡ running.sites
unfolding get insert Capacity.new Capacity.try_acquire with_prefix
replace_config-same_example = replace_config-same running reread (refl, tt) refl

-- ===== src/Refresh/Calls.antt =====
-- What the steps of a switch in AppOpt/src/refresh.rs do to the rate, the timer and the calls.
use app_opt.Base.{
  ℕ, true, false, not, ◌∷◌, Option, none, some, ◌≡◌, refl, arith, ◌==◌, if◌then◌else◌,
}
use app_opt.Base.Text.{Text, is_some}
use app_opt.Base.Dict.{lookup, text_eq}
use app_opt.Refresh.{
  AppRefreshConfig, use_config, update_enabled, RefreshState, surface_flinger, timer_set,
  timer_cancel, set_refresh_rate, apply_app_config, reset_timer, is_configured, enter_pkg,
}

pub set_refresh_rate-calls :
    (mode : ℕ) (s : RefreshState)
    → ((set_refresh_rate mode s).current_applied_mode ≡ mode)
      × ((set_refresh_rate mode s).calls
          ≡ (if mode == s.current_applied_mode then s.calls else surface_flinger mode ∷ s.calls))
unfolding set_refresh_rate
set_refresh_rate-calls mode s = (ground arith, ground arith)

use_config-calls :
    (cfg : Option AppRefreshConfig) (s : RefreshState)
    → ((use_config cfg s).current_applied_mode ≡ s.current_applied_mode)
      × ((use_config cfg s).calls ≡ s.calls)
use_config-calls none s = (refl, refl)
use_config-calls (some _) s = (refl, refl)

pub apply_app_config-calls :
    (pkg : Text) (s : RefreshState)
    → ((apply_app_config pkg s).current_applied_mode ≡ s.current_applied_mode)
      × ((apply_app_config pkg s).calls ≡ s.calls)
unfolding apply_app_config
apply_app_config-calls pkg s = use_config-calls (lookup pkg s.app_configs) s

use_config-none :
    (cfg : Option AppRefreshConfig) (s : RefreshState)
    → is_some cfg ≡ false
    → ((update_enabled (use_config cfg s)).timer_enabled ≡ not (s.idle_mode == s.active_mode))
      × ((use_config cfg s).current_timeout ≡ s.timeout_seconds)
use_config-none none s h = (refl, refl)
use_config-none (some _) s h = absurd (cc h)

-- An application without a configuration gets the global settings.
pub apply_app_config-none :
    (pkg : Text) (s : RefreshState)
    → is_configured pkg s ≡ false
    → ((apply_app_config pkg s).timer_enabled ≡ not (s.idle_mode == s.active_mode))
      × ((apply_app_config pkg s).current_timeout ≡ s.timeout_seconds)
unfolding apply_app_config
apply_app_config-none pkg s h = use_config-none (lookup pkg s.app_configs) s h

pub reset_timer_forced_calls :
    (now : ℕ) (s : RefreshState)
    → ((reset_timer now true s).current_applied_mode ≡ s.current_applied_mode)
      × ((reset_timer now true s).current_active ≡ s.current_active)
      × ((reset_timer now true s).calls
          ≡ (if s.timer_enabled then timer_set s.current_timeout else timer_cancel) ∷ s.calls)
unfolding reset_timer
reset_timer_forced_calls now s = (ground arith, ground arith, ground arith)

pub set_refresh_rate-current_active :
    (mode : ℕ) (s : RefreshState) → (set_refresh_rate mode s).current_active ≡ s.current_active
unfolding set_refresh_rate
set_refresh_rate-current_active mode s = ground arith

-- What an application runs with: its own configuration, or else the global settings.
abbrev pub config_for : Option AppRefreshConfig → RefreshState → AppRefreshConfig
config_for (some cfg) s = cfg
config_for none s = record {
  timeout = s.timeout_seconds;
  active_mode = s.active_mode;
  idle_mode = s.idle_mode;
}

pub record Uses (c : AppRefreshConfig) (t : RefreshState) : Type 0 where
  pub timeout : t.current_timeout ≡ c.timeout
  pub active : t.current_active ≡ c.active_mode
  pub enabled : t.timer_enabled ≡ not (c.idle_mode == c.active_mode)

use_config-Uses :
    (now : ℕ) (pkg : Text) (cfg : Option AppRefreshConfig) (s : RefreshState)
    → Uses (config_for cfg s) (update_enabled (use_config cfg (enter_pkg now pkg s)))
use_config-Uses now pkg none s = record { timeout = refl; active = refl; enabled = refl }
use_config-Uses now pkg (some _) s = record { timeout = refl; active = refl; enabled = refl }

pub apply_app_config-Uses :
    (now : ℕ) (pkg : Text) (s : RefreshState)
    → Uses (config_for (lookup pkg s.app_configs) s) (apply_app_config pkg (enter_pkg now pkg s))
unfolding apply_app_config
apply_app_config-Uses now pkg s = use_config-Uses now pkg (lookup pkg s.app_configs) s

pub set_refresh_rate-timer :
    (mode : ℕ) (s : RefreshState)
    → ((set_refresh_rate mode s).timer_enabled ≡ s.timer_enabled)
      × ((set_refresh_rate mode s).current_timeout ≡ s.current_timeout)
unfolding set_refresh_rate
set_refresh_rate-timer mode s = (ground arith, ground arith)

-- ===== src/Tests/Rates.antt =====
-- The refresh-rate controller on concrete events.
use app_opt.Base.{
  List, ◌||◌, ◌&&◌, false, not, ◌≡◌, [], ◌∷◌, none, some, refl, if◌then◌else◌, ◌==◌, arith,
}
use app_opt.Base.Decimal.{decimal}
use app_opt.Base.Dict.{lookup, text_eq}
use app_opt.Base.Text.{
  trim, trim_end, is_whitespace, split, strip_prefix, split_first, is_some, Text, codes, eq_text,
}
use app_opt.Refresh.{
  AppRefreshConfig, RefreshState, parse_mode, surface_flinger, switch_to_idle, handle_input,
  handle_fg_change, timer_set, timer_cancel,
}
use app_opt.Refresh.Behaviour.{
  handle_input-switch_to_idle, handle_fg_change_unconfigured, handle_fg_change_configured,
}
use app_opt.Refresh.Edit.{refresh_del_app, refresh_set_config, app_lines-refresh_del_app}
use app_opt.Refresh.Reads.{refresh_get_config}
use app_opt.Refresh.Reads.Loaded.{global_lines-refresh_set_config}
use app_opt.Refresh.Reads.Laws.{refresh_get_config-refresh_set_config}
use app_opt.Refresh.Invariant.{run, input, timer, foreground, reload, run-refresh_init}
use app_opt.Refresh.Settings.{app_lines, global_lines, first_state, refresh_init}

abbrev file : Text
file = codes "timeout=40\nactive=120\nidle=90\ncom.game,60,120,120\n"

-- The application com.game is configured.
abbrev configured : RefreshState
configured = record first_state {
  app_configs = (codes "com.game", record { timeout = 60; active_mode = 0; idle_mode = 2 }) ∷ [];
}

abbrev later : RefreshState
later =
    run (input 5 ∷ timer ∷ foreground 7 (codes "com.game") ∷ reload 9 none ∷ [])
      (refresh_init (some file))

run-refresh_init_example :
    (later.timer_enabled ≡ not (later.current_idle == later.current_active))
    × (((not later.timer_enabled || later.is_paused) && is_some later.last_reset_time) ≡ false)
run-refresh_init_example =
    run-refresh_init (some file)
      (input 5 ∷ timer ∷ foreground 7 (codes "com.game") ∷ reload 9 none ∷ [])

handle_input-switch_to_idle_example :
    ((switch_to_idle first_state).current_applied_mode ≡ first_state.current_idle)
    × ((handle_input 7 (switch_to_idle first_state)).current_applied_mode
        ≡ first_state.current_active)
    × ((handle_input 7 (switch_to_idle first_state)).is_paused ≡ false)
    × ((handle_input 7 (switch_to_idle first_state)).last_reset_time ≡ some 7)
handle_input-switch_to_idle_example = handle_input-switch_to_idle 7 first_state refl refl

handle_fg_change_unconfigured_example :
    ((handle_fg_change 7 (codes "com.mail") first_state).current_applied_mode
      ≡ first_state.current_applied_mode)
    × ((handle_fg_change 7 (codes "com.mail") first_state).calls
        ≡ (if not (first_state.idle_mode == first_state.active_mode)
            then timer_set first_state.timeout_seconds
            else timer_cancel)
          ∷ first_state.calls)
unfolding eq_text
handle_fg_change_unconfigured_example =
    handle_fg_change_unconfigured 7 (codes "com.mail") first_state refl refl refl refl

handle_fg_change_configured_example :
    ((handle_fg_change 7 (codes "com.game") configured).current_applied_mode ≡ 0)
    × ((handle_fg_change 7 (codes "com.game") configured).current_active ≡ 0)
    × ((handle_fg_change 7 (codes "com.game") configured).calls
        ≡ (if not (2 == 0) then timer_set 60 else timer_cancel)
          ∷ (if 0 == configured.current_applied_mode
              then configured.calls
              else surface_flinger 0 ∷ configured.calls))
unfolding eq_text
handle_fg_change_configured_example =
    handle_fg_change_configured 7 (codes "com.game") configured refl refl refl

abbrev edited : List Text
edited = codes "# com.game" ∷ codes "com.game,60,120,120" ∷ codes "com.mail,20,120,60" ∷ []

refresh_del_app_lines :
    refresh_del_app (codes "com.game") edited ≡ codes "# com.game" ∷ codes "com.mail,20,120,60" ∷ []
unfolding refresh_del_app eq_text trim trim_end is_whitespace split strip_prefix
refresh_del_app_lines = refl

abbrev no_apps : List (Text × AppRefreshConfig)
no_apps = []

app_lines-refresh_del_app_example :
    lookup (codes "com.game") (app_lines (refresh_del_app (codes "com.game") edited) no_apps)
    ≡ lookup (codes "com.game") no_apps
app_lines-refresh_del_app_example = app_lines-refresh_del_app (codes "com.game") edited no_apps

abbrev settings : List Text
settings = codes "# rates" ∷ codes "idle = 60" ∷ codes "timeout=x" ∷ []

refresh_set_config_lines :
    refresh_set_config 45 (codes "120") (codes "90") settings
    ≡ codes "# rates" ∷ codes "idle=90" ∷ codes "timeout=45" ∷ codes "active=120" ∷ []
unfolding refresh_set_config eq_text trim trim_end is_whitespace split_first decimal
refresh_set_config_lines = refl

refresh_get_config-refresh_set_config_example :
    refresh_get_config (refresh_set_config 45 (codes "120") (codes "90") settings)
    ≡ record { timeout = 45; active = codes "120"; idle = codes "90" }
unfolding is_whitespace
refresh_get_config-refresh_set_config_example =
    refresh_get_config-refresh_set_config 45 (codes "120") (codes "90") (omega arith) (omega arith)
      (refl, (refl, (refl, tt))) (refl, (refl, tt)) settings

global_lines-refresh_set_config_example :
    global_lines (refresh_set_config 45 (codes "120") (codes "90") settings) first_state
    ≡ record first_state {
      timeout_seconds = 45;
      active_mode = parse_mode (codes "120");
      idle_mode = parse_mode (codes "90");
    }
unfolding is_whitespace
global_lines-refresh_set_config_example =
    global_lines-refresh_set_config 45 (codes "120") (codes "90") (omega arith) (omega arith)
      (refl, (refl, (refl, tt))) (refl, (refl, tt)) first_state settings

-- ===== src/Refresh.antt =====
-- AppOpt/src/refresh.rs: the refresh-rate controller. An `i32` is its bit pattern, an `Instant` a
-- number of nanoseconds. The calls to SurfaceFlinger and to the timer are logged in the state.
pub mod Settings
pub mod Edit
pub mod Reads
pub mod Invariant
pub mod Behaviour
pub mod Calls
use app_opt.Base.{
  ℕ, ◌+◌, ◌-◌, ◌*◌, ◌%◌, ◌^◌, Bool, true, false, not, ◌&&◌, ◌||◌, List, [], ◌∷◌, Option, none, some,
  ltb, leb, ◌==◌, if◌then◌else◌,
}
use app_opt.Base.Dict.{lookup, text_eq}
use app_opt.Base.Text.{Text, codes, is_empty, is_some, eq_text, trim}

abbrev pub mode_120 : ℕ
mode_120 = 0

abbrev pub mode_60 : ℕ
mode_60 = 1

abbrev pub mode_90 : ℕ
mode_90 = 2

-- The bit pattern of -1.
abbrev pub no_mode : ℕ
no_mode = 2 ^ 32 - 1

abbrev pub second : ℕ
second = 1_000_000_000

pub record AppRefreshConfig : Type 0 where
  pub timeout : ℕ
  pub active_mode : ℕ
  pub idle_mode : ℕ

-- `service call SurfaceFlinger 1035 i32 mode`, and the two uses of `timerfd_settime`.
pub data Call : Type 0 where
  surface_flinger : ℕ → Call
  timer_set : ℕ → Call
  timer_cancel : Call

pub record RefreshState : Type 0 where
  pub timeout_seconds : ℕ
  pub active_mode : ℕ
  pub idle_mode : ℕ
  pub app_configs : List (Text × AppRefreshConfig)
  pub current_active : ℕ
  pub current_idle : ℕ
  pub current_timeout : ℕ
  pub current_applied_mode : ℕ
  pub is_paused : Bool
  pub timer_enabled : Bool
  pub last_reset_time : Option ℕ
  pub current_package : Text
  pub last_applied_pkg : Text
  pub last_apply_time : Option ℕ
  pub last_input_time : Option ℕ
  pub calls : List Call

unfoldable pub parse_mode : Text → ℕ
parse_mode s =
    if eq_text (trim s) (codes "120")
    then mode_120
    else if eq_text (trim s) (codes "90")
    then mode_90
    else mode_60

abbrev pub call : Call → RefreshState → RefreshState
call c s = record s { calls = c ∷ s.calls }

unfoldable pub set_refresh_rate : ℕ → RefreshState → RefreshState
set_refresh_rate mode s =
    if mode == s.current_applied_mode
    then s
    else record (call (surface_flinger mode) s) { current_applied_mode = mode }

-- The last line of `apply_app_config`, and of `load_global_config`.
abbrev pub update_enabled : RefreshState → RefreshState
update_enabled s = record s { timer_enabled = not (s.current_idle == s.current_active) }

abbrev pub use_config : Option AppRefreshConfig → RefreshState → RefreshState
use_config (some cfg) s = record s {
  current_timeout = cfg.timeout;
  current_active = cfg.active_mode;
  current_idle = cfg.idle_mode;
}
use_config none s = record s {
  current_timeout = s.timeout_seconds;
  current_active = s.active_mode;
  current_idle = s.idle_mode;
}

unfoldable pub apply_app_config : Text → RefreshState → RefreshState
apply_app_config pkg s = update_enabled (use_config (lookup pkg s.app_configs) s)

-- `(current_timeout - 10).max(0)` in seconds; the subtraction wraps.
unfoldable pub debounce : ℕ → ℕ
debounce timeout =
    let seconds = (timeout + 2 ^ 32 - 10) % 2 ^ 32 in
    if ltb seconds (2 ^ 31) then seconds * second else 0

abbrev pub unpause : RefreshState → RefreshState
unpause s = record s { is_paused = false }

-- Whether a reset that is not forced comes too soon after the last one.
unfoldable pub too_soon : ℕ → RefreshState → Bool
unfolding debounce
too_soon now s =
    s.current_applied_mode == s.current_active
    && not (s.current_active == s.current_idle)
    && elim s.last_reset_time [
      | none ↦ false
      | some last ↦ ltb (now - last) (debounce s.current_timeout)
    ]

unfoldable pub reset_timer : ℕ → Bool → RefreshState → RefreshState
reset_timer now force s =
    if not s.timer_enabled
    then record (call timer_cancel s) { last_reset_time = none }
    else if not force && too_soon now s
    then unpause s
    else record (call (timer_set s.current_timeout) (unpause s)) { last_reset_time = some now }

unfoldable pub switch_to_idle : RefreshState → RefreshState
unfolding set_refresh_rate
switch_to_idle s =
    if not s.timer_enabled
    then s
    else record (call timer_cancel (set_refresh_rate s.current_idle s)) {
      is_paused = true;
      last_reset_time = none;
    }

abbrev pub is_configured : Text → RefreshState → Bool
is_configured pkg s = is_some (lookup pkg s.app_configs)

abbrev pub enter_pkg : ℕ → Text → RefreshState → RefreshState
enter_pkg now pkg s = record s {
  current_package = pkg;
  last_applied_pkg = pkg;
  last_apply_time = some now;
}

-- `handle_fg_change` for another package than the last one.
unfoldable pub change_pkg : ℕ → Text → RefreshState → RefreshState
change_pkg now pkg s =
    let configured = is_configured s.last_applied_pkg s || is_configured pkg s in
    let entered = apply_app_config pkg (enter_pkg now pkg s) in
    let rated = if configured then set_refresh_rate entered.current_active entered else entered in
    reset_timer now true rated

unfoldable pub handle_fg_change : ℕ → Text → RefreshState → RefreshState
handle_fg_change now pkg s =
    if is_empty pkg || eq_text pkg s.last_applied_pkg then s else change_pkg now pkg s

-- `handle_input` behind the throttle.
unfoldable pub accept_input : ℕ → RefreshState → RefreshState
accept_input now s =
    if is_some s.last_reset_time
    then reset_timer now false s
    else reset_timer now true (unpause (set_refresh_rate s.current_active s))

abbrev pub within_second : ℕ → Option ℕ → Bool
within_second now none = false
within_second now (some last) = ltb (now - last) second

unfoldable pub handle_input : ℕ → RefreshState → RefreshState
handle_input now s =
    if within_second now s.last_input_time
    then s
    else accept_input now (record s { last_input_time = some now })

-- ===== src/Refresh/Settings.antt =====
-- refresh_config.conf as AppOpt/src/refresh.rs reads it: global keys, and one line for each
-- application.
use app_opt.Base.{
  ℕ, ◌+◌, ◌-◌, ◌^◌, Bool, true, false, ◌&&◌, ◌||◌, List, [], ◌∷◌, Option, none, some, ltb, ◌==◌,
  if◌then◌else◌,
}
use app_opt.Base.Decimal.{parse_uint}
use app_opt.Base.Dict.{insert, text_eq}
use app_opt.Base.Text.{
  Text, codes, is_empty, eq_text, trim, split, split_first, starts_with, lines, is_some,
}
use app_opt.Refresh.{
  mode_120, mode_60, no_mode, RefreshState, AppRefreshConfig, parse_mode, update_enabled,
  apply_app_config, set_refresh_rate, reset_timer,
}

abbrev negate : Option ℕ → Option ℕ
negate none = none
negate (some n) = some (if n == 0 then 0 else 2 ^ 32 - n)

-- `str::parse::<i32>`
unfoldable pub parse_i32 : Text → Option ℕ
parse_i32 [] = none
parse_i32 (c ∷ s) =
    if c == b'-'
    then (if is_empty s || starts_with (codes "+") s
        then none
        else negate (parse_uint (2 ^ 31 + 1) s))
    else parse_uint (2 ^ 31) (c ∷ s)

abbrev pub is_comment : Text → Bool
is_comment line = is_empty line || starts_with (codes "#") line

abbrev pub set_timeout : Option ℕ → RefreshState → RefreshState
set_timeout none s = s
set_timeout (some t) s = if ltb 0 t && ltb t (2 ^ 31) then record s { timeout_seconds = t } else s

unfoldable pub global_key : Text → Text → RefreshState → RefreshState
unfolding parse_i32
global_key k v s =
    if eq_text k (codes "timeout")
    then set_timeout (parse_i32 (trim v)) s
    else if eq_text k (codes "active")
    then record s { active_mode = parse_mode v }
    else if eq_text k (codes "idle")
    then record s { idle_mode = parse_mode v }
    else s

abbrev pub global_pair : Option (Text × Text) → RefreshState → RefreshState
global_pair none s = s
global_pair (some (k, v)) s = global_key (trim k) v s

unfoldable pub global_line : Text → RefreshState → RefreshState
global_line line s = if is_comment line then s else global_pair (split_first b'=' line) s

unfoldable pub global_lines : List Text → RefreshState → RefreshState
global_lines [] s = s
global_lines (l ∷ ls) s = global_lines ls (global_line (trim l) s)

abbrev pub use_global : RefreshState → RefreshState
use_global s = update_enabled (record s {
  current_active = s.active_mode;
  current_idle = s.idle_mode;
  current_timeout = s.timeout_seconds;
})

-- A file that cannot be read changes nothing.
unfoldable pub load_global_config : Option Text → RefreshState → RefreshState
unfolding global_lines global_line
load_global_config none s = s
load_global_config (some content) s = use_global (global_lines (lines content) s)

abbrev pub or_30 : Option ℕ → ℕ
or_30 none = 30
or_30 (some n) = n

-- Four fields make the line of an application.
unfoldable pub app_fields : List Text → Option (Text × AppRefreshConfig)
unfolding parse_i32
app_fields (pkg ∷ timeout ∷ active ∷ idle ∷ []) = some (
  trim pkg,
  record {
    timeout = or_30 (parse_i32 (trim timeout));
    active_mode = parse_mode (trim active);
    idle_mode = parse_mode (trim idle);
  },
)
app_fields _ = none

abbrev pub insert_app :
    Option (Text × AppRefreshConfig)
    → List (Text × AppRefreshConfig)
    → List (Text × AppRefreshConfig)
insert_app none m = m
insert_app (some (pkg, cfg)) m = insert pkg cfg m

unfoldable pub app_lines :
    List Text → List (Text × AppRefreshConfig) → List (Text × AppRefreshConfig)
unfolding app_fields
app_lines [] m = m
app_lines (l ∷ ls) m =
    app_lines ls
      (if is_comment (trim l) then m else insert_app (app_fields (split b',' (trim l))) m)

unfoldable pub load_app_configs : Option Text → RefreshState → RefreshState
unfolding app_lines
load_app_configs none s = record s { app_configs = [] }
load_app_configs (some content) s = record s { app_configs = app_lines (lines content) [] }

-- `check_config` when a reload was asked for.
unfoldable pub check_config : ℕ → Option Text → RefreshState → RefreshState
check_config now content s =
    let loaded = load_app_configs content (load_global_config content s) in
    let applied = apply_app_config loaded.current_package loaded in
    let rated = set_refresh_rate applied.current_active applied in
    if is_some rated.last_reset_time then reset_timer now true rated else rated

-- The state that `refresh_init` starts from.
abbrev pub first_state : RefreshState
first_state = record {
  timeout_seconds = 30;
  active_mode = mode_120;
  idle_mode = mode_60;
  app_configs = [];
  current_active = mode_120;
  current_idle = mode_60;
  current_timeout = 30;
  current_applied_mode = no_mode;
  is_paused = false;
  timer_enabled = true;
  last_reset_time = none;
  current_package = [];
  last_applied_pkg = [];
  last_apply_time = none;
  last_input_time = none;
  calls = [];
}

-- The state with which the thread of `refresh_init` begins.
unfoldable pub refresh_init : Option Text → RefreshState
refresh_init content =
    let loaded = load_app_configs content (load_global_config content first_state) in
    set_refresh_rate loaded.current_active loaded

-- ===== src/Refresh/Invariant.antt =====
-- What holds of the controller between two events.
use app_opt.Base.{
  ap, ltb, ◌^◌, ℕ, Bool, true, false, not, ◌&&◌, ◌||◌, List, [], ◌∷◌, Option, none, some, ◌≡◌, refl,
  arith, ◌==◌, if◌then◌else◌, if_elim, Bool-cases, inl, inr, ◌∙◌,
}
use app_opt.Base.Text.{codes, trim, split_first, lines, Text, is_some, is_empty, eq_text}
use app_opt.Refresh.{
  RefreshState, set_refresh_rate, apply_app_config, reset_timer, switch_to_idle, change_pkg,
  is_configured, enter_pkg, unpause, handle_fg_change, accept_input, handle_input, within_second,
}
use app_opt.Refresh.Settings.{
  set_timeout, parse_i32, global_key, global_pair, is_comment, first_state, refresh_init,
  load_global_config, load_app_configs, check_config, global_line, global_lines,
}

-- The timer is enabled exactly when the two rates differ; it does not run while it is disabled, nor
-- while the controller is paused.
pub record IsSteady (s : RefreshState) : Type 0 where
  pub enabled : s.timer_enabled ≡ not (s.current_idle == s.current_active)
  pub disabled_stopped : s.timer_enabled ≡ false → s.last_reset_time ≡ none
  pub paused_stopped : s.is_paused ≡ true → s.last_reset_time ≡ none

set_refresh_rate-IsSteady :
    (mode : ℕ) (s : RefreshState) → IsSteady s → IsSteady (set_refresh_rate mode s)
unfolding set_refresh_rate
set_refresh_rate-IsSteady mode s v = if_elim IsSteady (mode == s.current_applied_mode) v (record {
  enabled = v.enabled;
  disabled_stopped = v.disabled_stopped;
  paused_stopped = v.paused_stopped;
})

-- A forced reset makes a steady state of any state whose timer flag is right.
reset_timer_forced :
    (now : ℕ) (s : RefreshState)
    → s.timer_enabled ≡ not (s.current_idle == s.current_active)
    → IsSteady (reset_timer now true s)
unfolding reset_timer
reset_timer_forced now s e = ground arith

reset_timer-IsSteady :
    (now : ℕ) (force : Bool) (s : RefreshState) → IsSteady s → IsSteady (reset_timer now force s)
unfolding reset_timer
reset_timer-IsSteady now force s v = ground arith

pub switch_to_idle-IsSteady : (s : RefreshState) → IsSteady s → IsSteady (switch_to_idle s)
unfolding switch_to_idle
switch_to_idle-IsSteady s v = ground arith

-- The timer flag is as the rates say.
abbrev IsRight : RefreshState → Type 0
IsRight s = s.timer_enabled ≡ not (s.current_idle == s.current_active)

apply_app_config-IsRight : (pkg : Text) (s : RefreshState) → IsRight (apply_app_config pkg s)
unfolding apply_app_config
apply_app_config-IsRight pkg s = refl

set_refresh_rate-IsRight :
    (mode : ℕ) (s : RefreshState) → IsRight s → IsRight (set_refresh_rate mode s)
unfolding set_refresh_rate
set_refresh_rate-IsRight mode s v = if_elim IsRight (mode == s.current_applied_mode) v v

change_pkg-IsSteady : (now : ℕ) (pkg : Text) (s : RefreshState) → IsSteady (change_pkg now pkg s)
unfolding change_pkg
change_pkg-IsSteady now pkg s = reset_timer_forced now _ (
    if_elim IsRight (is_configured s.last_applied_pkg s || is_configured pkg s)
      (set_refresh_rate-IsRight _ _ (apply_app_config-IsRight pkg (enter_pkg now pkg s)))
      (apply_app_config-IsRight pkg (enter_pkg now pkg s)))

pub handle_fg_change-IsSteady :
    (now : ℕ) (pkg : Text) (s : RefreshState) → IsSteady s → IsSteady (handle_fg_change now pkg s)
unfolding handle_fg_change
handle_fg_change-IsSteady now pkg s v =
    if_elim IsSteady (is_empty pkg || eq_text pkg s.last_applied_pkg) v
      (change_pkg-IsSteady now pkg s)

unpause-IsSteady : (s : RefreshState) → IsSteady s → IsSteady (unpause s)
unpause-IsSteady s v = record {
  enabled = v.enabled;
  disabled_stopped = v.disabled_stopped;
  paused_stopped = λ h. absurd (cc h);
}

accept_input-IsSteady : (now : ℕ) (s : RefreshState) → IsSteady s → IsSteady (accept_input now s)
unfolding accept_input
accept_input-IsSteady now s v =
    if_elim IsSteady (is_some s.last_reset_time) (reset_timer-IsSteady now false s v) (
      reset_timer-IsSteady now true _
        (unpause-IsSteady _ (set_refresh_rate-IsSteady s.current_active s v)))

pub handle_input-IsSteady :
    (now : ℕ) (s : RefreshState) → IsSteady s → IsSteady (handle_input now s)
unfolding handle_input
handle_input-IsSteady now s v = if_elim IsSteady (within_second now s.last_input_time) v (
    accept_input-IsSteady now (record s { last_input_time = some now })
      (record {
        enabled = v.enabled;
        disabled_stopped = v.disabled_stopped;
        paused_stopped = v.paused_stopped;
      }))

stopped-IsSteady : (s : RefreshState) → IsRight s → is_some s.last_reset_time ≡ false → IsSteady s
stopped-IsSteady s right h = record {
  enabled = right;
  disabled_stopped = λ _. ground arith;
  paused_stopped = λ _. ground arith;
}

-- A reload restores the timer if it runs, and leaves it stopped otherwise.
restart-IsSteady :
    (now : ℕ) (s : RefreshState)
    → IsRight s
    → IsSteady (if is_some s.last_reset_time then reset_timer now true s else s)
restart-IsSteady now s right = elim (Bool-cases (is_some s.last_reset_time)) [
  | inl runs ↦ rw runs (reset_timer_forced now s right)
  | inr stopped ↦ rw stopped (stopped-IsSteady s right stopped)
]

set_timeout-last_reset_time :
    (t : Option ℕ) (s : RefreshState) → (set_timeout t s).last_reset_time ≡ s.last_reset_time
set_timeout-last_reset_time none s = refl
set_timeout-last_reset_time (some t) s =
    if_elim {A = RefreshState} (λ u. u.last_reset_time ≡ s.last_reset_time)
      (ltb 0 t && ltb t (2 ^ 31)) refl refl

global_key-last_reset_time :
    (k v : Text) (s : RefreshState) → (global_key k v s).last_reset_time ≡ s.last_reset_time
unfolding global_key
global_key-last_reset_time k v s =
    if_elim {A = RefreshState} (λ t. t.last_reset_time ≡ s.last_reset_time)
      (eq_text k (codes "timeout")) (set_timeout-last_reset_time (parse_i32 (trim v)) s)
      (if_elim {A = RefreshState} (λ t. t.last_reset_time ≡ s.last_reset_time)
        (eq_text k (codes "active")) refl
        (if_elim {A = RefreshState} (λ t. t.last_reset_time ≡ s.last_reset_time)
          (eq_text k (codes "idle")) refl refl))

global_pair-last_reset_time :
    (kv : Option (Text × Text)) (s : RefreshState)
    → (global_pair kv s).last_reset_time ≡ s.last_reset_time
global_pair-last_reset_time none s = refl
global_pair-last_reset_time (some (k, v)) s = global_key-last_reset_time (trim k) v s

global_line-last_reset_time :
    (l : Text) (s : RefreshState) → (global_line l s).last_reset_time ≡ s.last_reset_time
unfolding global_line
global_line-last_reset_time l s =
    if_elim {A = RefreshState} (λ t. t.last_reset_time ≡ s.last_reset_time) (is_comment l) refl
      (global_pair-last_reset_time (split_first b'=' l) s)

global_lines-last_reset_time :
    (ls : List Text) (s : RefreshState) → (global_lines ls s).last_reset_time ≡ s.last_reset_time
unfolding global_lines
global_lines-last_reset_time [] s = refl
global_lines-last_reset_time (l ∷ ls) s =
    global_lines-last_reset_time ls (global_line (trim l) s)
    ∙ global_line-last_reset_time (trim l) s

pub check_config-IsSteady :
    (now : ℕ) (content : Option Text) (s : RefreshState) → IsSteady (check_config now content s)
unfolding check_config
check_config-IsSteady now content s =
    let loaded = load_app_configs content (load_global_config content s) in
    let applied = apply_app_config loaded.current_package loaded in
    restart-IsSteady now (set_refresh_rate applied.current_active applied) (
      set_refresh_rate-IsRight applied.current_active applied
        (apply_app_config-IsRight loaded.current_package loaded))

-- What wakes the thread of the controller.
pub data Event : Type 0 where
  input : ℕ → Event
  reload : ℕ → Option Text → Event
  timer : Event
  foreground : ℕ → Text → Event

unfoldable pub handle : Event → RefreshState → RefreshState
handle (input now) s = handle_input now s
handle (reload now content) s = check_config now content s
handle timer s = switch_to_idle s
handle (foreground now pkg) s = handle_fg_change now pkg s

unfoldable pub run : List Event → RefreshState → RefreshState
run [] s = s
run (e ∷ es) s = run es (handle e s)

handle-IsSteady : (e : Event) (s : RefreshState) → IsSteady s → IsSteady (handle e s)
unfolding handle
handle-IsSteady (input now) s v = handle_input-IsSteady now s v
handle-IsSteady (reload now content) s v = check_config-IsSteady now content s
handle-IsSteady timer s v = switch_to_idle-IsSteady s v
handle-IsSteady (foreground now pkg) s v = handle_fg_change-IsSteady now pkg s v

run-IsSteady : (es : List Event) (s : RefreshState) → IsSteady s → IsSteady (run es s)
unfolding run
run-IsSteady [] s v = v
run-IsSteady (e ∷ es) s v = run-IsSteady es (handle e s) (handle-IsSteady e s v)

load_global_config-IsSteady :
    (content : Option Text) (s : RefreshState)
    → s.last_reset_time ≡ none
    → IsSteady s
    → IsSteady (load_global_config content s)
unfolding load_global_config
load_global_config-IsSteady none s stopped v = v
load_global_config-IsSteady (some content) s stopped v = record {
  enabled = refl;
  disabled_stopped = λ _. global_lines-last_reset_time (lines content) s ∙ stopped;
  paused_stopped = λ _. global_lines-last_reset_time (lines content) s ∙ stopped;
}

load_app_configs-IsSteady :
    (content : Option Text) (s : RefreshState) → IsSteady s → IsSteady (load_app_configs content s)
unfolding load_app_configs
load_app_configs-IsSteady none s v = record {
  enabled = v.enabled;
  disabled_stopped = v.disabled_stopped;
  paused_stopped = v.paused_stopped;
}
load_app_configs-IsSteady (some content) s v = record {
  enabled = v.enabled;
  disabled_stopped = v.disabled_stopped;
  paused_stopped = v.paused_stopped;
}

refresh_init-IsSteady : (content : Option Text) → IsSteady (refresh_init content)
unfolding refresh_init
refresh_init-IsSteady content =
    let globals = load_global_config content first_state in
    let loaded = load_app_configs content globals in
    set_refresh_rate-IsSteady loaded.current_active loaded (
      load_app_configs-IsSteady content globals (
        load_global_config-IsSteady content first_state refl
          (record { enabled = refl; disabled_stopped = λ _. refl; paused_stopped = λ _. refl })))

-- The stop of the timer as one test.
stopped_when :
    (s : RefreshState)
    → IsSteady s
    → ((not s.timer_enabled || s.is_paused) && is_some s.last_reset_time) ≡ false
stopped_when s v = by_flags s.timer_enabled s.is_paused refl refl
  where
    by_flags :
        (b c : Bool)
        → s.timer_enabled ≡ b
        → s.is_paused ≡ c
        → ((not b || c) && is_some s.last_reset_time) ≡ false
    by_flags true true _ paused = ap is_some (v.paused_stopped paused)
    by_flags true false _ _ = refl
    by_flags false _ off _ = ap is_some (v.disabled_stopped off)

-- After any events in any order since the start, whatever the configuration file holds at the start
-- and at each reload: the timer is enabled exactly when the two rates differ, and it is stopped
-- while it is disabled or the controller is paused.
pub run-refresh_init :
    (content : Option Text) (es : List Event)
    → (let s = run es (refresh_init content) in
        (s.timer_enabled ≡ not (s.current_idle == s.current_active))
        × (((not s.timer_enabled || s.is_paused) && is_some s.last_reset_time) ≡ false))
run-refresh_init content es =
    let steady = run-IsSteady es (refresh_init content) (refresh_init-IsSteady content) in
    (steady.enabled, stopped_when (run es (refresh_init content)) steady)

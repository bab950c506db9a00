-- ===== src/Refresh/Behaviour.antt =====
-- What the events do to the rate and the timer.
use app_opt.Base.{
  ap, ℕ, ◌-◌, ◌<◌, Bool, true, false, not, ◌||◌, ◌∷◌, none, some, ◌≡◌, refl, arith, ◌==◌,
  if◌then◌else◌, ◌∙◌,
}
use app_opt.Base.Text.{Text, is_empty, eq_text}
use app_opt.Base.Dict.{lookup, text_eq}
use app_opt.Refresh.{
  RefreshState, surface_flinger, timer_set, timer_cancel, set_refresh_rate, apply_app_config,
  reset_timer, switch_to_idle, change_pkg, handle_fg_change, accept_input, handle_input,
  within_second, second, is_configured, enter_pkg,
}
use app_opt.Refresh.Calls.{
  Uses, config_for, set_refresh_rate-calls, apply_app_config-calls, apply_app_config-none,
  reset_timer_forced_calls, set_refresh_rate-current_active, apply_app_config-Uses,
  set_refresh_rate-timer,
}

-- Input that is not throttled while the timer is stopped applies the active rate, ends the pause,
-- and starts an enabled timer.
handle_input_wakes :
    (now : ℕ) (s : RefreshState)
    → within_second now s.last_input_time ≡ false
    → s.last_reset_time ≡ none
    → ((handle_input now s).current_applied_mode ≡ s.current_active)
      × ((handle_input now s).is_paused ≡ false)
      × ((handle_input now s).last_reset_time ≡ (if s.timer_enabled then some now else none))
unfolding handle_input accept_input set_refresh_rate reset_timer
handle_input_wakes now s late stopped = (ground arith, ground arith, ground arith)

switch_to_idle-enabled :
    (s : RefreshState)
    → s.timer_enabled ≡ true
    → ((switch_to_idle s).current_applied_mode ≡ s.current_idle)
      × ((switch_to_idle s).last_reset_time ≡ none)
      × ((switch_to_idle s).last_input_time ≡ s.last_input_time)
      × ((switch_to_idle s).current_active ≡ s.current_active)
      × ((switch_to_idle s).timer_enabled ≡ s.timer_enabled)
unfolding switch_to_idle
switch_to_idle-enabled s h = (ground arith, ground arith, ground arith, ground arith, ground arith)

-- The end of an enabled timer applies the idle rate; input after that, a second or more after the
-- last input, applies the active rate again, ends the pause and starts the timer.
pub handle_input-switch_to_idle :
    (now : ℕ) (s : RefreshState)
    → s.timer_enabled ≡ true
    → within_second now s.last_input_time ≡ false
    → ((switch_to_idle s).current_applied_mode ≡ s.current_idle)
      × ((handle_input now (switch_to_idle s)).current_applied_mode ≡ s.current_active)
      × ((handle_input now (switch_to_idle s)).is_paused ≡ false)
      × ((handle_input now (switch_to_idle s)).last_reset_time ≡ some now)
handle_input-switch_to_idle now s enabled late =
    let idle = switch_to_idle-enabled s enabled in
    let woken = handle_input_wakes now (switch_to_idle s) (rw idle.2 late) idle.1 in
    (idle.0, woken.0 ∙ idle.3, woken.1, woken.2 ∙ rw (idle.4, enabled) refl)

-- Input within a second of the last accepted one changes nothing.
handle_input_throttled :
    (now last : ℕ) (s : RefreshState)
    → s.last_input_time ≡ some last
    → now - last < second
    → handle_input now s ≡ s
unfolding handle_input
handle_input_throttled now last s e h = ground arith

-- A switch that is one is `change_pkg`.
handle_fg_change-other :
    (now : ℕ) (pkg : Text) (s : RefreshState)
    → is_empty pkg ≡ false
    → eq_text pkg s.last_applied_pkg ≡ false
    → handle_fg_change now pkg s ≡ change_pkg now pkg s
unfolding handle_fg_change
handle_fg_change-other now pkg s named other = rw named (rw other refl)

-- `change_pkg` with the test on the two configurations decided.
change_pkg-test :
    (now : ℕ) (pkg : Text) (s : RefreshState) (b : Bool)
    → (is_configured s.last_applied_pkg s || is_configured pkg s) ≡ b
    → change_pkg now pkg s ≡ (
        let entered = apply_app_config pkg (enter_pkg now pkg s) in
        reset_timer now true
          (if b then set_refresh_rate entered.current_active entered else entered))
unfolding change_pkg
change_pkg-test now pkg s b e =
    ap
      (λ c.
        let entered = apply_app_config pkg (enter_pkg now pkg s) in
        reset_timer now true
          (if c then set_refresh_rate entered.current_active entered else entered))
      e

-- A switch between two different applications without a configuration keeps the applied rate, and
-- its only call sets the timer to the global timeout, or cancels it where the global rates are
-- equal.
pub handle_fg_change_unconfigured :
    (now : ℕ) (pkg : Text) (s : RefreshState)
    → is_empty pkg ≡ false
    → eq_text pkg s.last_applied_pkg ≡ false
    → is_configured s.last_applied_pkg s ≡ false
    → is_configured pkg s ≡ false
    → ((handle_fg_change now pkg s).current_applied_mode ≡ s.current_applied_mode)
      × ((handle_fg_change now pkg s).calls
          ≡ (if not (s.idle_mode == s.active_mode)
              then timer_set s.timeout_seconds
              else timer_cancel)
            ∷ s.calls)
handle_fg_change_unconfigured now pkg s named other was is =
    let entered = apply_app_config pkg (enter_pkg now pkg s) in
    let same =
      handle_fg_change-other now pkg s named other
      ∙ change_pkg-test now pkg s false (ap (λ a. a || is_configured pkg s) was ∙ is) in
    let kept = apply_app_config-calls pkg (enter_pkg now pkg s) in
    let timed = reset_timer_forced_calls now entered in
    let global = apply_app_config-none pkg (enter_pkg now pkg s) is in
    (
      ap (λ t. t.current_applied_mode) same ∙ timed.0 ∙ kept.0,
      ap (λ t. t.calls) same
          ∙ timed.2
          ∙ ap
              (λ l.
                (if entered.timer_enabled then timer_set entered.current_timeout else timer_cancel)
                ∷ l)
              kept.1
          ∙ ap (λ b. (if b then timer_set entered.current_timeout else timer_cancel) ∷ s.calls)
              global.0
          ∙ ap
              (λ t.
                (if not (s.idle_mode == s.active_mode) then timer_set t else timer_cancel)
                ∷ s.calls)
              global.1,
    )

-- A switch to another named application, one of the two having a configuration, applies the active
-- rate of the configuration of the new one, or the global active rate where it has none: that is
-- then the active and the applied rate, SurfaceFlinger is called exactly when this changes the
-- applied rate, and the timer is then set to the timeout of the same settings, or cancelled where
-- their two rates are equal.
pub handle_fg_change_configured :
    (now : ℕ) (pkg : Text) (s : RefreshState)
    → is_empty pkg ≡ false
    → eq_text pkg s.last_applied_pkg ≡ false
    → (is_configured s.last_applied_pkg s || is_configured pkg s) ≡ true
    → let c = config_for (lookup pkg s.app_configs) s in
      ((handle_fg_change now pkg s).current_applied_mode ≡ c.active_mode)
      × ((handle_fg_change now pkg s).current_active ≡ c.active_mode)
      × ((handle_fg_change now pkg s).calls
          ≡ (if not (c.idle_mode == c.active_mode) then timer_set c.timeout else timer_cancel)
            ∷ (if c.active_mode == s.current_applied_mode
                then s.calls
                else surface_flinger c.active_mode ∷ s.calls))
handle_fg_change_configured now pkg s named other h =
    let c = config_for (lookup pkg s.app_configs) s in
    let entered = apply_app_config pkg (enter_pkg now pkg s) in
    let uses : Uses c entered = apply_app_config-Uses now pkg s in
    let rated = set_refresh_rate entered.current_active entered in
    let same = handle_fg_change-other now pkg s named other ∙ change_pkg-test now pkg s true h in
    let timed = reset_timer_forced_calls now rated in
    let rate = set_refresh_rate-calls entered.current_active entered in
    let timer = set_refresh_rate-timer entered.current_active entered in
    let kept = apply_app_config-calls pkg (enter_pkg now pkg s) in
    (
      ap (λ t. t.current_applied_mode) same ∙ timed.0 ∙ rate.0 ∙ uses.active,
      ap (λ t. t.current_active) same
          ∙ timed.1
          ∙ set_refresh_rate-current_active entered.current_active entered
          ∙ uses.active,
      ap (λ t. t.calls) same
          ∙ timed.2
          ∙ rw (timer.0, timer.1, rate.1, uses.active, uses.enabled, uses.timeout, kept.0, kept.1)
              refl,
    )

-- ===== src/Kernel/Filter.antt =====
-- The filter lets a name pass when one of its windows is a key.
use app_opt.Base.{
  ℕ, zero, suc, ◌+◌, ◌<◌, ◌≤◌, ◌≢◌, true, List, ◌≡◌, refl, arith, Bool-cases, inl, inr,
}
use app_opt.Base.Dict.{lookup, text_eq}
use app_opt.Base.Text.{is_some}
use app_opt.Kernel.{Maps, key_at, windows_loop, whitelist_matched}

-- A key in a window ends the loop, wherever in the loop's range the window begins.
windows_loop_hit :
    (n pos j : ℕ) (comm : List ℕ) (m : Maps)
    → pos ≤ j
    → j < pos + n
    → is_some (lookup (key_at j comm) m.target_comm_map) ≡ true
    → windows_loop n pos comm m ≡ true
unfolding windows_loop
windows_loop_hit zero pos j comm m low high hit = absurd (omega arith)
windows_loop_hit (suc n) pos j comm m low high hit =
    elim (Bool-cases (is_some (lookup (key_at pos comm) m.target_comm_map))) [
      | inl here ↦ rw here refl
      | inr not_here ↦
          let other : pos ≢ j = λ e. absurd (cc (e, hit, not_here)) in
          rw not_here (windows_loop_hit n (pos + 1) j comm m (omega arith) (omega arith) hit)
    ]

-- A name passes when one of its nine windows is a key.
pub whitelist_matched_hit :
    (j : ℕ) (comm : List ℕ) (m : Maps)
    → j < 9
    → is_some (lookup (key_at j comm) m.target_comm_map) ≡ true
    → whitelist_matched comm m ≡ true
unfolding whitelist_matched
whitelist_matched_hit j comm m h hit = windows_loop_hit 9 0 j comm m (omega arith) (omega arith) hit

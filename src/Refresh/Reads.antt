-- ===== src/Refresh/Reads.antt =====
-- `refresh_get_config` of AppOpt/src/refresh.rs: the global settings as the web interface shows them.
pub mod Laws
pub mod Loaded
pub mod Written
use app_opt.Base.{
  ℕ, ◌^◌, Bool, true, false, ◌&&◌, List, [], ◌∷◌, Option, none, some, ltb, if◌then◌else◌,
}
use app_opt.Base.Text.{Text, codes, eq_text, trim, split_first}
use app_opt.Refresh.Settings.{parse_i32}

-- A timeout is the bit pattern of an i32.
pub record Shown : Type 0 where
  pub timeout : ℕ
  pub active : Text
  pub idle : Text

abbrev pub default : Shown
default = record { timeout = 30; active = codes "120"; idle = codes "60" }

abbrev pub shown_timeout : Option ℕ → Shown → Shown
shown_timeout none g = g
shown_timeout (some t) g = if ltb 0 t && ltb t (2 ^ 31) then record g { timeout = t } else g

unfoldable pub shown_key : Text → Text → Shown → Shown
shown_key k v g =
    if eq_text k (codes "timeout")
    then shown_timeout (parse_i32 (trim v)) g
    else if eq_text k (codes "active")
    then record g { active = trim v }
    else if eq_text k (codes "idle")
    then record g { idle = trim v }
    else g

abbrev pub shown_pair : Option (Text × Text) → Shown → Shown
shown_pair none g = g
shown_pair (some (k, v)) g = shown_key (trim k) v g

unfoldable pub shown_lines : List Text → Shown → Shown
unfolding shown_key
shown_lines [] g = g
shown_lines (line ∷ ls) g = shown_lines ls (shown_pair (split_first b'=' (trim line)) g)

unfoldable pub refresh_get_config : List Text → Shown
unfolding shown_lines
refresh_get_config ls = shown_lines ls default

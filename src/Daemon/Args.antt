-- ===== src/Daemon/Args.antt =====
-- The command line of AppOpt/src/main.rs, and the settings that it goes before.
use app_opt.Base.{ℕ, Bool, true, false, ◌||◌, List, [], ◌∷◌, Option, none, some, ltb, if◌then◌else◌}
use app_opt.Base.Decimal.{parse_uint, usize_bound}
use app_opt.Base.Text.{Text, codes, is_empty, contains_char, eq_text}
use app_opt.Web.Settings.{Settings, or_default}

-- What the options give.
pub record Cli : Type 0 where
  pub cfg : Option Text
  pub interval : Option ℕ
  pub cpuset : Option Text
  pub web : Bool

abbrev pub no_options : Cli
no_options = record { cfg = none; interval = none; cpuset = none; web = false }

-- The options are read to their end, or the process ends with a code.
pub data Parsed : Type 0 where
  options : Cli → Parsed
  exit : ℕ → Parsed

-- A value that is at least 1.
unfoldable pub parse_interval : Text → Option ℕ
parse_interval s = elim (parse_uint usize_bound s) [
  | none ↦ none
  | some n ↦ if ltb 0 n then some n else none
]

abbrev pub bad_dir : Text → Bool
bad_dir s = is_empty s || contains_char b'/' s

abbrev pub with_interval : Option ℕ → (ℕ → Parsed) → Parsed
with_interval none f = exit 1
with_interval (some n) f = f n

-- An option without a value behind it.
unfoldable pub alone : Text → Cli → Parsed
alone o c =
    if eq_text o (codes "-w")
    then options (record c { web = true })
    else if eq_text o (codes "-v") || eq_text o (codes "-h")
    then exit 0
    else exit 1

-- The loop over the arguments, behind the name of the program.
unfoldable pub parse_args : List Text → Cli → Parsed
unfolding alone parse_interval
parse_args [] c = options c
parse_args (o ∷ []) c = alone o c
parse_args (o ∷ v ∷ args) c =
    if eq_text o (codes "-c")
    then parse_args args (record c { cfg = some v })
    else if eq_text o (codes "-s")
    then with_interval (parse_interval v) (λ n. parse_args args (record c { interval = some n }))
    else if eq_text o (codes "-b")
    then (if bad_dir v then exit 1 else parse_args args (record c { cpuset = some v }))
    else if eq_text o (codes "-w")
    then parse_args (v ∷ args) (record c { web = true })
    else alone o c

-- What the daemon starts with: an option goes before the settings file.
pub record Start : Type 0 where
  pub config_file : Text
  pub sleep_interval : ℕ
  pub cpuset_name : Text
  pub web_enable : Bool
  pub mode : ℕ

unfoldable pub start_with : Cli → Settings → Start
start_with c st = record {
  config_file = or_default c.cfg st.config_file;
  sleep_interval = or_default c.interval st.check_interval;
  cpuset_name = or_default c.cpuset st.cpuset_name;
  web_enable = c.web || st.web_enable;
  mode = st.mode;
}

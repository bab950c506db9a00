-- ===== src/Web/Settings.antt =====
-- The settings file of AppOpt/src/web.rs.
pub mod Laws
use app_opt.Base.{
  ℕ, ◌≤◌, Bool, true, false, not, ◌≡◌, refl, ap, List, [], ◌∷◌, Option, none, some, min, max, ltb,
  leb, if◌then◌else◌, arith, ◌∙◌,
}
use app_opt.Base.Dict.{lookup, text_eq}
use app_opt.Base.Text.{Text, codes, eq_text}
use app_opt.Web.{Item, Serde, IsSerde, valid_name, valid_path}

pub record Settings : Type 0 where
  pub web_enable : Bool
  pub mode : ℕ
  pub check_interval : ℕ
  pub cpuset_name : Text
  pub config_file : Text

-- `Settings::default`
abbrev pub default : Settings
default = record {
  web_enable = false;
  mode = 0;
  check_interval = 2;
  cpuset_name = codes "AppOpt";
  config_file = codes "./applist.conf";
}

-- `unwrap_or`
abbrev pub or_default {ℓ} : {A : Type ℓ} → Option A → A → A
or_default none d = d
or_default (some a) d = a

-- `filter(p)` and then `unwrap_or`
abbrev pub if_valid : (Text → Bool) → Option Text → Text → Text
if_valid p none d = d
if_valid p (some s) d = if p s then s else d

-- `clamp(1, 3600)`
abbrev pub clamp : ℕ → ℕ
clamp n = min (max n 1) 3600

unfoldable pub from_json : (S : Serde) → S.Value → Settings
from_json S v = record {
  web_enable = or_default (S.as_bool v (codes "web_enable")) default.web_enable;
  mode = min (or_default (S.as_u64 v (codes "mode")) default.mode) 2;
  check_interval = clamp (or_default (S.as_u64 v (codes "check_interval")) default.check_interval);
  cpuset_name = if_valid valid_name (S.as_str v (codes "cpuset_name")) default.cpuset_name;
  config_file = if_valid valid_path (S.as_str v (codes "config_file")) default.config_file;
}

abbrev pub fields : Settings → List (Text × Item)
fields s =
    (codes "web_enable", Item.flag s.web_enable)
    ∷ (codes "mode", Item.num s.mode)
    ∷ (codes "check_interval", Item.num s.check_interval)
    ∷ (codes "cpuset_name", Item.str s.cpuset_name)
    ∷ (codes "config_file", Item.str s.config_file)
    ∷ []

unfoldable pub to_value : (S : Serde) → Settings → S.Value
to_value S s = S.object (fields s)

-- What `Settings::save` writes, without the end of its last line.
unfoldable pub save : (S : Serde) → Settings → S.Doc
unfolding to_value
save S s = S.to_doc (to_value S s)

-- The outcome of `fs::read_to_string`: `missing` is the error NotFound.
pub data ReadFile (A : Type 0) : Type 0 where
  content : A → ReadFile A
  missing : ReadFile A
  unreadable : ReadFile A

abbrev or_broken : (S : Serde) → Option S.Value → Settings
or_broken S none = default
or_broken S (some v) = from_json S v

-- The settings, and what is written to the file.
unfoldable pub settings_load : (S : Serde) → ReadFile S.Doc → Settings × Option S.Doc
unfolding from_json save
settings_load S (content text) = (or_broken S (S.from_doc text), none)
settings_load S missing = (default, some (save S default))
settings_load S unreadable = (default, none)

-- Settings that the program keeps.
pub record IsValid (s : Settings) : Type 0 where
  pub mode : s.mode ≤ 2
  pub from_one : 1 ≤ s.check_interval
  pub to_hour : s.check_interval ≤ 3600
  pub name : valid_name s.cpuset_name ≡ true
  pub path : valid_path s.config_file ≡ true

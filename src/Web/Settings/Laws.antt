-- ===== src/Web/Settings/Laws.antt =====
-- The settings file of AppOpt/src/web.rs, written and read.
use app_opt.Base.{
  ℕ, ◌≤◌, Bool, true, false, ◌≡◌, ◌∙◌, refl, ap, Option, none, some, min, arith, if◌then◌else◌,
}
use app_opt.Base.Dict.{text_eq}
use app_opt.Base.Text.{Text, codes, eq_text, contains_char}
use app_opt.Web.{Serde, IsSerde, valid_name, valid_path}
use app_opt.Web.Settings.{
  Settings, default, or_default, if_valid, clamp, from_json, fields, to_value, save, ReadFile,
  content, missing, unreadable, or_broken, settings_load, IsValid,
}

default-IsValid : IsValid default
unfolding valid_name valid_path contains_char
default-IsValid = record {
  mode = omega arith;
  from_one = omega arith;
  to_hour = omega arith;
  name = refl;
  path = refl;
}

if_valid-valid :
    (p : Text → Bool) (o : Option Text) (d : Text) → p d ≡ true → p (if_valid p o d) ≡ true
if_valid-valid p none d h = h
if_valid-valid p (some s) d h = by_test (p s) refl
  where
    by_test : (b : Bool) → p s ≡ b → p (if b then s else d) ≡ true
    by_test true e = e
    by_test false e = h

if_valid-some : (p : Text → Bool) (s d : Text) → p s ≡ true → if_valid p (some s) d ≡ s
if_valid-some p s d h = rw h refl

from_json-IsValid : (S : Serde) (v : S.Value) → IsValid (from_json S v)
unfolding from_json
from_json-IsValid S v = record {
  mode = omega arith;
  from_one = omega arith;
  to_hour = omega arith;
  name =
      if_valid-valid valid_name (S.as_str v (codes "cpuset_name")) default.cpuset_name
        default-IsValid.name;
  path =
      if_valid-valid valid_path (S.as_str v (codes "config_file")) default.config_file
        default-IsValid.path;
}

or_broken-IsValid : (S : Serde) (o : Option S.Value) → IsValid (or_broken S o)
or_broken-IsValid S none = default-IsValid
or_broken-IsValid S (some v) = from_json-IsValid S v

-- Whatever the settings file holds, or fails to hold, the settings that are loaded have a mode up to
-- 2, an interval between a second and an hour, and a directory name and a path that pass their
-- tests.
pub settings_load-IsValid : (S : Serde) (file : ReadFile S.Doc) → IsValid (settings_load S file).0
unfolding settings_load
settings_load-IsValid S (content text) = or_broken-IsValid S (S.from_doc text)
settings_load-IsValid S missing = default-IsValid
settings_load-IsValid S unreadable = default-IsValid

abbrev built : Bool → ℕ → ℕ → Text → Text → Settings
built web mode interval name path = record {
  web_enable = web;
  mode = mode;
  check_interval = interval;
  cpuset_name = name;
  config_file = path;
}

built-ext :
    {b b' : Bool} {m m' i i' : ℕ} {n n' p p' : Text}
    → b ≡ b'
    → m ≡ m'
    → i ≡ i'
    → n ≡ n'
    → p ≡ p'
    → built b m i n p ≡ built b' m' i' n' p'
built-ext eb em ei en ep = cc (eb, em, ei, en, ep)

from_json-to_value :
    (S : Serde) (s : Settings) → IsSerde S → IsValid s → from_json S (to_value S s) ≡ s
unfolding from_json to_value eq_text
from_json-to_value S s l h =
    built-ext
      (ap (λ o. or_default o default.web_enable) (l.field_bool (fields s) (codes "web_enable")))
      (ap (λ o. min (or_default o default.mode) 2) (l.field_u64 (fields s) (codes "mode"))
        ∙ within_two s.mode h.mode)
      (ap (λ o. clamp (or_default o default.check_interval))
          (l.field_u64 (fields s) (codes "check_interval"))
        ∙ within_hour s.check_interval h.from_one h.to_hour)
      (ap (λ o. if_valid valid_name o default.cpuset_name)
          (l.field_str (fields s) (codes "cpuset_name"))
        ∙ if_valid-some valid_name s.cpuset_name default.cpuset_name h.name)
      (ap (λ o. if_valid valid_path o default.config_file)
          (l.field_str (fields s) (codes "config_file"))
        ∙ if_valid-some valid_path s.config_file default.config_file h.path)
  where
    within_two : (m : ℕ) → m ≤ 2 → min m 2 ≡ m
    within_two m g = omega (arith, g)

    within_hour : (n : ℕ) → 1 ≤ n → n ≤ 3600 → clamp n ≡ n
    within_hour n f g = omega (arith, f, g)

pub settings_load-save :
    (S : Serde) (s : Settings)
    → IsSerde S
    → IsValid s
    → (settings_load S (content (save S s))).0 ≡ s
unfolding settings_load save
settings_load-save S s l h =
    ap (or_broken S) (l.reads_back (to_value S s)) ∙ from_json-to_value S s l h

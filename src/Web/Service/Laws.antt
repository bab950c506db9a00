-- ===== src/Web/Service/Laws.antt =====
-- The handlers of AppOpt/src/web.rs that change the settings: what they keep.
use app_opt.Base.{
  ℕ, ◌≤◌, ◌%◌, ◌^◌, Bool, true, false, not, ◌&&◌, ◌≡◌, ◌≢◌, ◌∙◌, sym, refl, ap, [], ◌∷◌, Option,
  none, some, max, ltb, leb, arith, if◌then◌else◌,
}
use app_opt.Base.Text.{
  Text, codes, split, is_empty, contains_char, split-Lacks, contains_char-Lacks,
}
use app_opt.Cpu.Dirs.{set_base_cpuset, base_cpuset}
use app_opt.Web.{Serde, Reply, fine, valid_name, valid_path, IsSerde}
use app_opt.Web.Service.{
  Shared, last_part, cpuset_name, settings_save, set_mode, set_interval, set_name, set_path,
  Effects, refuse, store, config_set, config_set_api, config_set_value, out_of, not_valid,
}
use app_opt.Web.Settings.{IsValid, save, settings_load, content}
use app_opt.Web.Settings.Laws.{settings_load-save}

name-Lacks : (n : Text) → valid_name n ≡ true → contains_char b'/' n ≡ false
unfolding valid_name
name-Lacks n h = ground arith

name-nonempty : (n : Text) → valid_name n ≡ true → is_empty n ≡ false
unfolding valid_name
name-nonempty n h = ground arith

-- The name is the last part of the path that it makes.
cpuset_name-set_base_cpuset :
    (n : Text) (base : Option Text) → valid_name n ≡ true → cpuset_name (set_base_cpuset n base) ≡ n
unfolding set_base_cpuset base_cpuset last_part split
cpuset_name-set_base_cpuset n base h = rw (name-nonempty n h) (
    rw (name-Lacks n h) (
      ap last_part (
        ap (λ ps. [] ∷ codes "dev" ∷ codes "cpuset" ∷ ps)
          (split-Lacks b'/' n (contains_char-Lacks b'/' n (name-Lacks n h))))))

-- What would be saved is valid.
abbrev pub Holds : Shared → Type 0
Holds g = IsValid (settings_save g)

set_mode-Holds :
    (m : Option ℕ) (g : Shared) → out_of (ltb 2) m ≡ false → Holds g → Holds (set_mode m g)
unfolding settings_save
set_mode-Holds none g e h = h
set_mode-Holds (some m) g e h = record {
  mode = small m e;
  from_one = h.from_one;
  to_hour = h.to_hour;
  name = h.name;
  path = h.path;
}
  where
    small : (m : ℕ) → ltb 2 m ≡ false → m % 2 ^ 8 ≤ 2
    small m e = ground arith

set_interval-Holds :
    (i : Option ℕ) (g : Shared)
    → out_of (λ n. not (leb 1 n && leb n 3600)) i ≡ false
    → Holds g
    → Holds (set_interval i g)
unfolding settings_save
set_interval-Holds none g e h = h
set_interval-Holds (some n) g e h = record {
  mode = h.mode;
  from_one = omega arith;
  to_hour = in_hour n e;
  name = h.name;
  path = h.path;
}
  where
    in_hour : (n : ℕ) → not (leb 1 n && leb n 3600) ≡ false → max n 1 ≤ 3600
    in_hour n e = ground arith

not-false : (b : Bool) → not b ≡ false → b ≡ true
not-false true e = refl
not-false false e = sym e

set_name-Holds :
    (n : Option Text) (g : Shared) → not_valid valid_name n ≡ false → Holds g → Holds (set_name n g)
unfolding settings_save
set_name-Holds none g e h = h
set_name-Holds (some n) g e h = record {
  mode = h.mode;
  from_one = h.from_one;
  to_hour = h.to_hour;
  name =
      ap valid_name (cpuset_name-set_base_cpuset n g.base (not-false (valid_name n) e))
      ∙ not-false (valid_name n) e;
  path = h.path;
}

set_path-Holds :
    (p : Option Text) (g : Shared) → not_valid valid_path p ≡ false → Holds g → Holds (set_path p g)
unfolding settings_save
set_path-Holds none g e h = h
set_path-Holds (some p) g e h = record {
  mode = h.mode;
  from_one = h.from_one;
  to_hour = h.to_hour;
  name = h.name;
  path = not-false (valid_path p) e;
}

-- A property of the answer and the stores holds where each early return has it, and the stores behind
-- the tests.
config_set-elim :
    (S : Serde) (exists : Text → Bool) (m i : Option ℕ) (n p : Option Text) (g : Shared)
    (Has : (Reply × Shared) × Effects S.Doc → Type 0)
    → ((msg : Text) → Has (refuse S msg g))
    → (out_of (ltb 2) m ≡ false
        → out_of (λ n. not (leb 1 n && leb n 3600)) i ≡ false
        → not_valid valid_name n ≡ false
        → not_valid valid_path p ≡ false
        → Has (store S exists m i n p g))
    → Has (config_set S exists m i n p g)
unfolding config_set
config_set-elim S exists m i n p g Has no_way way = guarded Has (out_of (ltb 2) m) (no_way _) (λ em.
    guarded Has (out_of (λ n. not (leb 1 n && leb n 3600)) i) (no_way _) (λ ei.
      guarded Has (not_valid valid_name n) (no_way _)
        (λ en. guarded Has (not_valid valid_path p) (no_way _) (λ ep. way em ei en ep))))
  where
    guarded :
        (Has : (Reply × Shared) × Effects S.Doc → Type 0) (b : Bool)
        {x y : (Reply × Shared) × Effects S.Doc}
        → Has x
        → (b ≡ false → Has y)
        → Has (if b then x else y)
    guarded Has true h f = h
    guarded Has false h f = f refl

config_set_value-Holds :
    (S : Serde) (exists : Text → Bool) (v : Option S.Value) (g : Shared)
    → Holds g
    → Holds (config_set_value S exists v g).0.1
config_set_value-Holds S exists none g h = h
config_set_value-Holds S exists (some v) g h =
    config_set-elim S exists (S.as_u64 v (codes "mode")) (S.as_u64 v (codes "interval"))
      (S.as_str v (codes "cpuset_name")) (S.as_str v (codes "config_file")) g (λ r. Holds r.0.1)
      (λ _. h)
      (λ em ei en ep.
        set_path-Holds _ _ ep
          (set_name-Holds _ _ en (set_interval-Holds _ _ ei (set_mode-Holds _ g em h))))

-- A change of the settings, accepted or not, keeps what can be saved and loaded: a mode up to 2, an
-- interval of at most an hour, a directory name and a path that pass the tests of a load.
pub config_set_api-Holds :
    (S : Serde) (exists : Text → Bool) (body : S.Doc) (g : Shared)
    → Holds g
    → Holds (config_set_api S exists body g).0.1
unfolding config_set_api
config_set_api-Holds S exists body g h = config_set_value-Holds S exists (S.from_doc body) g h

-- What is saved are the statics behind the stores.
config_set_value-saved :
    (S : Serde) (exists : Text → Bool) (v : Option S.Value) (g : Shared) {d : S.Doc}
    → (config_set_value S exists v g).1.settings ≡ some d
    → d ≡ save S (settings_save (config_set_value S exists v g).0.1)
config_set_value-saved S exists none g e = absurd (cc e)
config_set_value-saved S exists (some v) g {d} e =
    config_set-elim S exists (S.as_u64 v (codes "mode")) (S.as_u64 v (codes "interval"))
      (S.as_str v (codes "cpuset_name")) (S.as_str v (codes "config_file")) g
      (λ r. r.1.settings ≡ some d → d ≡ save S (settings_save r.0.1)) (λ _ f. absurd (cc f))
      (λ _ _ _ _ f. cc f) e

-- The settings file that a change of the settings writes loads as the settings then in force, where
-- those from before could be saved and loaded, and serde_json reads what it wrote.
pub settings_load-config_set_api :
    (S : Serde) (exists : Text → Bool) (body : S.Doc) (g : Shared) {d : S.Doc}
    → IsSerde S
    → Holds g
    → (config_set_api S exists body g).1.settings ≡ some d
    → (settings_load S (content d)).0 ≡ settings_save (config_set_api S exists body g).0.1
unfolding config_set_api
settings_load-config_set_api S exists body g l h e =
    let served = config_set_value S exists (S.from_doc body) g in
    ap (λ d. (settings_load S (content d)).0)
      (config_set_value-saved S exists (S.from_doc body) g e)
    ∙ settings_load-save S (settings_save served.0.1) l
        (config_set_value-Holds S exists (S.from_doc body) g h)

config_set_value-same :
    (S : Serde) (exists : Text → Bool) (v : Option S.Value) (g : Shared)
    → (config_set_value S exists v g).0.0 ≢ fine
    → ((config_set_value S exists v g).0.1 ≡ g)
      × ((config_set_value S exists v g).1
          ≡ record { dir = none; new_file = none; settings = none })
config_set_value-same S exists none g e = (refl, refl)
config_set_value-same S exists (some v) g e =
    config_set-elim S exists (S.as_u64 v (codes "mode")) (S.as_u64 v (codes "interval"))
      (S.as_str v (codes "cpuset_name")) (S.as_str v (codes "config_file")) g
      (λ r.
        r.0.0 ≢ fine
        → (r.0.1 ≡ g) × (r.1 ≡ record { dir = none; new_file = none; settings = none }))
      (λ _ _. (refl, refl)) (λ _ _ _ _ f. absurd (f refl)) e

-- A change of the settings that is refused leaves every setting as it was, makes no directory or
-- file, and saves nothing.
pub config_set_api-refused :
    (S : Serde) (exists : Text → Bool) (body : S.Doc) (g : Shared)
    → (config_set_api S exists body g).0.0 ≢ fine
    → ((config_set_api S exists body g).0.1 ≡ g)
      × ((config_set_api S exists body g).1
          ≡ record { dir = none; new_file = none; settings = none })
unfolding config_set_api
config_set_api-refused S exists body g e = config_set_value-same S exists (S.from_doc body) g e

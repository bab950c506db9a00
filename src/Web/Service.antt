-- ===== src/Web/Service.antt =====
-- The state that the web interface of AppOpt/src/web.rs shares with the other threads, and the handlers
-- that change the settings.
pub mod Laws
use app_opt.Base.{
  ℕ, ◌+◌, ◌%◌, ◌^◌, Bool, true, false, not, ◌&&◌, ◌||◌, List, [], ◌∷◌, ◌++◌, Option, none, some,
  max, ltb, leb, ◌==◌, if◌then◌else◌,
}
use app_opt.Base.Text.{Text, codes, split}
use app_opt.Config.Load.{AppConfig}
use app_opt.Cpu.Dirs.{set_base_cpuset, base_cpuset}
use app_opt.Web.{Serde, Reply, fine, err_json, valid_name, valid_path}
use app_opt.Web.Settings.{Settings, ReadFile, save}

-- The statics of the program.
pub record Shared : Type 0 where
  pub web_enabled : Bool
  pub mode_force : ℕ
  pub gave_up : Bool
  pub check_interval : ℕ
  pub base : Option Text
  pub config_file : Text
  pub force_reload : Bool
  pub current : Option AppConfig

-- `rsplit('/').next()` of a path.
unfoldable pub last_part : List Text → Text
last_part [] = []
last_part (p ∷ []) = p
last_part (p ∷ q ∷ ps) = last_part (q ∷ ps)

abbrev pub cpuset_name : Option Text → Text
cpuset_name base = last_part (split b'/' (base_cpuset base))

-- What `settings_save` writes.
unfoldable pub settings_save : Shared → Settings
unfolding last_part
settings_save g = record {
  web_enable = g.web_enabled;
  mode = g.mode_force;
  check_interval = max g.check_interval 1;
  cpuset_name = cpuset_name g.base;
  config_file = g.config_file;
}

abbrev pub out_of : (ℕ → Bool) → Option ℕ → Bool
out_of p none = false
out_of p (some n) = p n

abbrev pub not_valid : (Text → Bool) → Option Text → Bool
not_valid p none = false
not_valid p (some s) = not (p s)

abbrev pub set_mode : Option ℕ → Shared → Shared
set_mode none g = g
set_mode (some m) g = record g {
  mode_force = m % 2 ^ 8;
  gave_up = if m == 2 then g.gave_up else false;
}

abbrev pub set_interval : Option ℕ → Shared → Shared
set_interval none g = g
set_interval (some n) g = record g { check_interval = n }

abbrev pub set_name : Option Text → Shared → Shared
set_name none g = g
set_name (some n) g = record g { base = set_base_cpuset n g.base; force_reload = true }

abbrev pub set_path : Option Text → Shared → Shared
set_path none g = g
set_path (some p) g = record g { config_file = p; force_reload = true }

-- What a handler does besides: the arguments of `create_cpuset_dir`, the configuration file that it
-- makes since there is none, and the settings file.
pub record Effects (D : Type 0) : Type 0 where
  pub dir : Option (Text × (Text × Text))
  pub new_file : Option Text
  pub settings : Option D

abbrev dir_for : Option Text → Option AppConfig → Option Text → Option (Text × (Text × Text))
dir_for none cfg base = none
dir_for (some n) none base = none
dir_for (some n) (some cfg) base =
    if cfg.topo.cpuset_enabled
    then some (base_cpuset base, (cfg.topo.present_str, cfg.topo.mems_str))
    else none

abbrev file_for : (Text → Bool) → Option Text → Option Text
file_for exists none = none
file_for exists (some p) = if exists p then none else some p

-- An early return.
abbrev pub refuse : (S : Serde) → Text → Shared → (Reply × Shared) × Effects S.Doc
refuse S msg g = ((err_json 400 msg, g), record { dir = none; new_file = none; settings = none })

-- The stores behind the tests, in their order; `exists` is `metadata(p).is_ok()`.
abbrev pub store :
    (S : Serde)
    → (Text → Bool)
    → Option ℕ
    → Option ℕ
    → Option Text
    → Option Text
    → Shared
    → (Reply × Shared) × Effects S.Doc
store S exists mode interval name path g =
    let named = set_name name (set_interval interval (set_mode mode g)) in
    let stored = set_path path named in
    (
      (fine, stored),
      record {
        dir = dir_for name named.current named.base;
        new_file = file_for exists path;
        settings = some (save S (settings_save stored));
      },
    )

-- The handler behind its reads.
unfoldable pub config_set :
    (S : Serde)
    → (Text → Bool)
    → Option ℕ
    → Option ℕ
    → Option Text
    → Option Text
    → Shared
    → (Reply × Shared) × Effects S.Doc
unfolding settings_save
config_set S exists mode interval name path g =
    if out_of (ltb 2) mode
    then refuse S (codes "无效的工作模式") g
    else if out_of (λ n. not (leb 1 n && leb n 3600)) interval
    then refuse S (codes "间隔需在 1-3600 秒之间") g
    else if not_valid valid_name name
    then refuse S (codes "无效的 cpuset 目录名") g
    else if not_valid valid_path path
    then refuse S (codes "无效的配置文件路径") g
    else store S exists mode interval name path g

abbrev pub bad_json_text : Text
bad_json_text = codes "请求体不是合法 JSON"

abbrev pub bad_json : Reply
bad_json = err_json 400 bad_json_text

abbrev pub config_set_value :
    (S : Serde) → (Text → Bool) → Option S.Value → Shared → (Reply × Shared) × Effects S.Doc
config_set_value S exists none g = refuse S bad_json_text g
config_set_value S exists (some v) g =
    config_set S exists (S.as_u64 v (codes "mode")) (S.as_u64 v (codes "interval"))
      (S.as_str v (codes "cpuset_name")) (S.as_str v (codes "config_file")) g

-- `config_set_api`: the answer, the statics behind it, and the rest.
unfoldable pub config_set_api :
    (S : Serde) → (Text → Bool) → S.Doc → Shared → (Reply × Shared) × Effects S.Doc
unfolding config_set
config_set_api S exists body g = config_set_value S exists (S.from_doc body) g

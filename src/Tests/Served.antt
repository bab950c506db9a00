-- ===== src/Tests/Served.antt =====
-- The web interface on small requests.
use app_opt.Base.{ℕ, true, false, ◌≡◌, ◌≢◌, refl, List, [], ◌∷◌, Option, none, some, arith}
use app_opt.Base.Dict.{lookup, text_eq}
use app_opt.Base.Text.{Text, codes, eq_text, contains_char, split}
use app_opt.Tests.Data.{cfg}
use app_opt.Web.{
  Serde, IsSerde, Item, fine, err_json, str_of, num_of, flag_of, valid_name, valid_path,
}
use app_opt.Web.Service.{Shared, settings_save, config_set_api}
use app_opt.Web.Service.Laws.{
  Holds, config_set_api-Holds, settings_load-config_set_api, config_set_api-refused,
}
use app_opt.Web.Settings.{IsValid, settings_load, content}
use app_opt.Web.Settings.Laws.{settings_load-IsValid}

-- Documents that are objects.
abbrev serde : Serde
serde = record {
  Doc = List (Text × Item);
  Value = List (Text × Item);
  from_doc = λ v. some v;
  to_doc = λ v. v;
  object = λ m. m;
  as_str = λ v k. str_of (lookup k v);
  as_u64 = λ v k. num_of (lookup k v);
  as_bool = λ v k. flag_of (lookup k v);
}

serde-IsSerde : IsSerde serde
serde-IsSerde = record {
  reads_back = λ v. refl;
  field_str = λ m k. refl;
  field_u64 = λ m k. refl;
  field_bool = λ m k. refl;
}

abbrev shared : Shared
shared = record {
  web_enabled = true;
  mode_force = 0;
  gave_up = true;
  check_interval = 2;
  base = none;
  config_file = codes "./applist.conf";
  force_reload = false;
  current = some cfg;
}

shared-Holds : Holds shared
unfolding settings_save valid_name valid_path contains_char split app_opt.Cpu.Dirs.base_cpuset
shared-Holds = record {
  mode = omega arith;
  from_one = omega arith;
  to_hour = omega arith;
  name = refl;
  path = refl;
}

abbrev body : List (Text × Item)
body =
    (codes "mode", Item.num 1)
    ∷ (codes "interval", Item.num 5)
    ∷ (codes "cpuset_name", Item.str (codes "opt"))
    ∷ []

abbrev bad_body : List (Text × Item)
bad_body = (codes "interval", Item.num 3601) ∷ []

settings_load-IsValid_example : IsValid (settings_load serde (content body)).0
settings_load-IsValid_example = settings_load-IsValid serde (content body)

config_set_api-Holds_example : Holds (config_set_api serde (λ _. true) body shared).0.1
config_set_api-Holds_example = config_set_api-Holds serde (λ _. true) body shared shared-Holds

abbrev or_no_doc : Option (List (Text × Item)) → List (Text × Item)
or_no_doc none = []
or_no_doc (some d) = d

abbrev saved_doc : List (Text × Item)
saved_doc = or_no_doc (config_set_api serde (λ _. true) body shared).1.settings

settings_load-config_set_api_example :
    (settings_load serde (content saved_doc)).0
    ≡ settings_save (config_set_api serde (λ _. true) body shared).0.1
unfolding config_set_api eq_text valid_name contains_char
settings_load-config_set_api_example =
    settings_load-config_set_api serde (λ _. true) body shared serde-IsSerde shared-Holds refl

err_json-fine : (code : ℕ) (msg : Text) → err_json code msg ≢ fine
err_json-fine code msg e = absurd (cc e)

config_set_api-refused_example :
    ((config_set_api serde (λ _. true) bad_body shared).0.1 ≡ shared)
    × ((config_set_api serde (λ _. true) bad_body shared).1
        ≡ record { dir = none; new_file = none; settings = none })
unfolding config_set_api eq_text
config_set_api-refused_example =
    config_set_api-refused serde (λ _. true) bad_body shared
      (err_json-fine 400 (codes "间隔需在 1-3600 秒之间"))

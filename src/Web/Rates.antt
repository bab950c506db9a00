-- ===== src/Web/Rates.antt =====
-- The handlers of AppOpt/src/web.rs for the refresh rates, over the lines of refresh_config.conf.
use app_opt.Base.{
  ℕ, ◌%◌, ◌^◌, Bool, not, ◌||◌, List, Option, none, some, any, ltb, leb, ◌==◌, if◌then◌else◌,
}
use app_opt.Base.Text.{Text, codes, is_empty, byte_len, eq_text, trim}
use app_opt.Config.Load.{is_control}
use app_opt.Refresh.Edit.{refresh_set_config, refresh_add_app, refresh_del_app}
use app_opt.Web.{Serde, Reply, fine, err_json}
use app_opt.Web.Service.{bad_json}
use app_opt.Web.Settings.{or_default}

-- The answer, and the lines that the file gets.
pub record Served : Type 0 where
  pub reply : Reply
  pub lines : Option (List Text)

abbrev pub refuse : ℕ → Text → Served
refuse code msg = record { reply = err_json code msg; lines = none }

abbrev pub accept : List Text → Served
accept ls = record { reply = fine; lines = some ls }

-- `as_u64().unwrap_or(30) as i32`, by its bit pattern.
unfoldable pub timeout_of : Option ℕ → ℕ
timeout_of o = or_default o 30 % 2 ^ 32

-- `timeout < 1 || timeout > 3600` of an i32.
unfoldable pub out_of_hour : ℕ → Bool
out_of_hour t = t == 0 || leb (2 ^ 31) t || ltb 3600 t

abbrev is_rate : Text → Bool
is_rate s = eq_text s (codes "120") || eq_text s (codes "90") || eq_text s (codes "60")

unfoldable pub config_set : Option ℕ → Option Text → Option Text → List Text → Served
unfolding timeout_of out_of_hour
config_set timeout active idle ls =
    let t = timeout_of timeout in
    let a = or_default active (codes "120") in
    let i = or_default idle (codes "60") in
    if out_of_hour t
    then refuse 400 (codes "超时时间需在 1-3600 秒之间")
    else if not (is_rate a) || not (is_rate i)
    then refuse 400 (codes "刷新率仅支持 120/90/60")
    else accept (refresh_set_config t a i ls)

abbrev with_value : (S : Serde) → Option S.Value → (S.Value → Served) → Served
with_value S none f = record { reply = bad_json; lines = none }
with_value S (some v) f = f v

unfoldable pub refresh_config_set_api : (S : Serde) → List Text → S.Doc → Served
unfolding config_set
refresh_config_set_api S ls body = with_value S (S.from_doc body) (λ v.
    config_set (S.as_u64 v (codes "timeout")) (S.as_str v (codes "active"))
      (S.as_str v (codes "idle")) ls)

abbrev with_pkg : Option Text → (Text → Served) → Served
with_pkg none f = refuse 400 (codes "缺少 pkg 字段")
with_pkg (some pkg) f = f (trim pkg)

unfoldable pub app_add : Text → Option ℕ → Option Text → Option Text → List Text → Served
unfolding timeout_of out_of_hour
app_add pkg timeout active idle ls =
    let t = timeout_of timeout in
    let a = or_default active (codes "120") in
    let i = or_default idle (codes "60") in
    if is_empty pkg || leb 128 (byte_len pkg) || any is_control pkg
    then refuse 400 (codes "无效的包名")
    else if out_of_hour t
    then refuse 400 (codes "超时时间需在 1-3600 秒之间")
    else if not (is_rate a) || not (is_rate i)
    then refuse 400 (codes "刷新率仅支持 120/90/60")
    else accept (refresh_add_app pkg t a i ls)

unfoldable pub refresh_app_add_api : (S : Serde) → List Text → S.Doc → Served
unfolding app_add
refresh_app_add_api S ls body = with_value S (S.from_doc body) (λ v.
    with_pkg (S.as_str v (codes "pkg")) (λ pkg.
      app_add pkg (S.as_u64 v (codes "timeout")) (S.as_str v (codes "active"))
        (S.as_str v (codes "idle")) ls))

-- The file, where it can be read.
unfoldable pub app_del : Option (List Text) → Text → Served
app_del file pkg =
    if is_empty pkg
    then refuse 400 (codes "包名不能为空")
    else elim file [ some ls ↦ accept (refresh_del_app pkg ls) | none ↦ refuse 500 (codes "删除失败") ]

unfoldable pub refresh_app_del_api : (S : Serde) → Option (List Text) → S.Doc → Served
unfolding app_del
refresh_app_del_api S file body =
    with_value S (S.from_doc body) (λ v. with_pkg (S.as_str v (codes "pkg")) (app_del file))

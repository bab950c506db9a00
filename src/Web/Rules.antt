-- ===== src/Web/Rules.antt =====
-- The handlers of AppOpt/src/web.rs for rules, and what they show of them.
pub mod Laws
pub mod Loaded
pub mod Suggest
use app_opt.Base.{
  ℕ, Bool, true, false, not, ◌&&◌, ◌||◌, List, [], ◌∷◌, ◌++◌, Option, none, some, ltb, leb, ◌==◌,
  if◌then◌else◌,
}
use app_opt.Base.Text.{Text, codes, is_empty, byte_len, eq_text, trim}
use app_opt.Config.Line.{spec_like}
use app_opt.Config.Load.{AppConfig, AffinityRule, max_pkg_len, max_thread_len}
use app_opt.Cpu.Set.{count}
use app_opt.Cpu.Spec.{parse_cpu_spec}
use app_opt.Cpu.Topology.{CpuTopology}
use app_opt.Edit.{RuleEdit}
use app_opt.Edit.Ops.{
  Edited, written, refused, answer, rule_upsert, rule_delete, rule_delete_pkg, rule_rename,
}
use app_opt.Web.{Serde, Reply, fine, err_json, token_ok, pkg_shape_ok, spec_name}
use app_opt.Web.Service.{bad_json}

-- The answer, the lines that `file_write` gets, and whether `config_reload_now` is called.
pub record Served : Type 0 where
  pub reply : Reply
  pub lines : Option (List Text)
  pub reload : Bool

abbrev pub refuse : ℕ → Text → Served
refuse code msg = record { reply = err_json code msg; lines = none; reload = false }

abbrev pub lines_of : Edited → Option (List Text)
lines_of (written ls) = some ls
lines_of (refused e) = none

abbrev served : Edited → Reply → Served
served e r = record { reply = r; lines = lines_of e; reload = false }

abbrev pub upserted : Edited → RuleEdit → Served
upserted e RuleEdit.ok = record { reply = fine; lines = lines_of e; reload = true }
upserted e RuleEdit.malformed = served e (err_json 409 (codes "配置文件存在未闭合块，请修复后重试"))
upserted e _ = served e (err_json 500 (codes "配置文件写入失败"))

-- `rule_api` behind its reads: the name, the thread and the CPUs are trimmed.
unfoldable pub rule_set : (Text → Bool) → List Text → Text → Text → Text → AppConfig → Served
rule_set write_file ls pkg thread cpus cfg =
    let e = rule_upsert ls pkg thread cpus in
    if not (token_ok pkg max_pkg_len)
      || (not (is_empty thread) && not (token_ok thread max_thread_len))
    then refuse 400 (codes "名称含有非法字符")
    else if is_empty thread && not (pkg_shape_ok pkg)
    then refuse 400 (codes "包名含 { 且以 } 结尾时不支持包级规则，可改用线程规则")
    else if is_empty cpus
        || leb 64 (byte_len cpus)
        || not (spec_like cpus)
        || count (parse_cpu_spec cpus cfg.topo) == 0
    then refuse 400 (codes "无效的 CPU 规格")
    else upserted e (answer write_file e)

abbrev trimmed : Option Text → Text
trimmed none = []
trimmed (some s) = trim s

abbrev with_config : Option AppConfig → (AppConfig → Served) → Served
with_config none f = refuse 500 (codes "配置未就绪")
with_config (some cfg) f = f cfg

abbrev rule_fields : (Text → Text → Served) → Option Text → Option Text → Served
rule_fields f (some pkg) (some cpus) = f (trim pkg) (trim cpus)
rule_fields f (some pkg) none = refuse 400 (codes "缺少 pkg 或 cpus 字段")
rule_fields f none cpus = refuse 400 (codes "缺少 pkg 或 cpus 字段")

abbrev with_value : (S : Serde) → Option S.Value → (S.Value → Served) → Served
with_value S none f = record { reply = bad_json; lines = none; reload = false }
with_value S (some v) f = f v

unfoldable pub rule_api :
    (S : Serde) → (Text → Bool) → List Text → Option AppConfig → S.Doc → Served
unfolding rule_set
rule_api S write_file ls current body = with_value S (S.from_doc body) (λ v.
    rule_fields
      (λ pkg cpus.
        with_config current
          (λ cfg. rule_set write_file ls pkg (trimmed (S.as_str v (codes "thread"))) cpus cfg))
      (S.as_str v (codes "pkg")) (S.as_str v (codes "cpus")))

abbrev no_pkg : Served
no_pkg = refuse 400 (codes "缺少 pkg 字段")

abbrev deleted : Edited → RuleEdit → Served
deleted e RuleEdit.ok = record { reply = fine; lines = lines_of e; reload = true }
deleted e RuleEdit.not_found = served e (err_json 404 (codes "规则不存在"))
deleted e RuleEdit.conflict = served e (err_json 409 (codes "状态冲突"))
deleted e RuleEdit.malformed = served e (err_json 409 (codes "配置文件存在未闭合块，请修复后重试"))
deleted e RuleEdit.io_err = served e (err_json 500 (codes "配置文件写入失败"))

abbrev map_edited : (Edited → Served) → Option Edited → Option Served
map_edited f none = none
map_edited f (some e) = some (f e)

abbrev is_true : Option Bool → Bool
is_true none = false
is_true (some b) = b

-- `rule_del_api`, whose loop over the package has the fuel.
unfoldable pub rule_del : ℕ → (Text → Bool) → List Text → Text → Text → Bool → Option Served
rule_del fuel write_file ls pkg thread whole =
    map_edited (λ e. deleted e (answer write_file e))
      (if whole then rule_delete_pkg fuel ls pkg else some (rule_delete ls pkg thread))

abbrev del_fields : (Text → Option Served) → Option Text → Option Served
del_fields f none = some no_pkg
del_fields f (some pkg) = f (trim pkg)

abbrev with_value? : (S : Serde) → Option S.Value → (S.Value → Option Served) → Option Served
with_value? S none f = some (record { reply = bad_json; lines = none; reload = false })
with_value? S (some v) f = f v

unfoldable pub rule_del_api : (S : Serde) → ℕ → (Text → Bool) → List Text → S.Doc → Option Served
unfolding rule_del
rule_del_api S fuel write_file ls body = with_value? S (S.from_doc body) (λ v.
    del_fields
      (λ pkg.
        rule_del fuel write_file ls pkg (trimmed (S.as_str v (codes "thread")))
          (is_true (S.as_bool v (codes "all"))))
      (S.as_str v (codes "pkg")))

abbrev renamed : Edited → RuleEdit → Served
renamed e RuleEdit.ok = record { reply = fine; lines = lines_of e; reload = true }
renamed e RuleEdit.not_found = served e (err_json 404 (codes "原包名不存在"))
renamed e RuleEdit.conflict = served e (err_json 409 (codes "目标包名已存在规则"))
renamed e RuleEdit.malformed = served e (err_json 409 (codes "配置文件存在未闭合块，请修复后重试"))
renamed e RuleEdit.io_err = served e (err_json 500 (codes "配置文件写入失败"))

unfoldable pub rename : ℕ → (Text → Bool) → List Text → Text → Text → Option Served
rename fuel write_file ls old new =
    if not (token_ok old max_pkg_len) || not (token_ok new max_pkg_len)
    then some (refuse 400 (codes "名称含有非法字符"))
    else if not (pkg_shape_ok new)
    then some (refuse 400 (codes "包名含 { 且以 } 结尾时不可作为重命名目标"))
    else if eq_text old new
    then some (record { reply = fine; lines = none; reload = false })
    else map_edited (λ e. renamed e (answer write_file e)) (rule_rename fuel ls old new)

abbrev rename_fields : (Text → Text → Option Served) → Option Text → Option Text → Option Served
rename_fields f (some old) (some new) = f (trim old) (trim new)
rename_fields f (some old) none = some (refuse 400 (codes "缺少 old 或 new 字段"))
rename_fields f none new = some (refuse 400 (codes "缺少 old 或 new 字段"))

unfoldable pub rule_rename_api : (S : Serde) → ℕ → (Text → Bool) → List Text → S.Doc → Option Served
unfolding rename
rule_rename_api S fuel write_file ls body = with_value? S (S.from_doc body) (λ v.
    rename_fields (rename fuel write_file ls) (S.as_str v (codes "old")) (S.as_str v (codes "new")))

-- `rules_json`: the rules by package, in the order in which the packages come.
unfoldable pub into_group :
    Text → Text × Text → List (Text × List (Text × Text)) → List (Text × List (Text × Text))
into_group pkg item [] = (pkg, item ∷ []) ∷ []
into_group pkg item ((p, items) ∷ groups) =
    let rest = into_group pkg item groups in
    if eq_text p pkg then (p, items ++ (item ∷ [])) ∷ groups else (p, items) ∷ rest

unfoldable pub group_rules :
    CpuTopology
    → List AffinityRule
    → List (Text × List (Text × Text))
    → List (Text × List (Text × Text))
group_rules topo [] groups = groups
group_rules topo (r ∷ rs) groups =
    group_rules topo rs (into_group r.pkg (r.thread, spec_name r.cpus topo) groups)

unfoldable pub rules_json : Option AppConfig → List (Text × List (Text × Text))
unfolding into_group group_rules
rules_json none = []
rules_json (some cfg) = group_rules cfg.topo cfg.rules []

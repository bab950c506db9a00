-- ===== src/Web/Rules/Loaded.antt =====
-- A rule for a package that `rule_api` of AppOpt/src/web.rs adds, as AppOpt/src/config.rs loads it.
use app_opt.Base.Text.{Text}

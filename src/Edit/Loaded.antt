-- ===== src/Edit/Loaded.antt =====
-- Whole files for `target_scan` of AppOpt/src/rule_edit.rs and for `load_config` of AppOpt/src/config.rs.
use app_opt.Base.{◌≢◌, List, [], All}
use app_opt.Base.Text.{Text, trim}
use app_opt.Config.Line.{pending, parse_outer}
use app_opt.Edit.Scan.{Scan}

-- No line waits for a block without a name: `=` alone would.
abbrev pub IsNamed : List Text → Type 0
IsNamed = All (λ raw. parse_outer (trim raw) ≢ pending [])

-- ===== src/Tests/Added.antt =====
-- A rule that the web interface adds, and what the loader reads of it.
use app_opt.Base.{true, ◌≡◌, refl, List, [], ◌∷◌}
use app_opt.Base.Decimal.{parse_uint}
use app_opt.Base.Text.{
  Text, codes, eq_text, contains_char, split, split_first, split_last, strip_prefix,
  strip_suffix_char, ends_with, trim, is_whitespace,
}
use app_opt.Config.Line.{parse_outer, spec_like}
use app_opt.Config.Load.{config_of, initial, load_lines}
use app_opt.Cpu.Ranges.{parse_cpu_ranges}
use app_opt.Cpu.Set.{count, count_ones, is_set, new, or, set}
use app_opt.Cpu.Spec.{parse_cpu_spec}
use app_opt.Edit.{any_line}
use app_opt.Edit.Ops.{rule_upsert, upsert_pkg, file_write}
use app_opt.Edit.Scan.{target_scan}
use app_opt.Edit.Singles.{normalize_singles}
use app_opt.Tests.Data.{cfg, env}
use app_opt.Web.{fine, contains_text, token_ok, pkg_shape_ok}
use app_opt.Web.Rules.{rule_set}

handler : Unit {0}
unfolding config_of trim rule_set token_ok contains_char contains_text strip_prefix pkg_shape_ok
    ends_with spec_like split eq_text split_first count parse_cpu_spec or new parse_cpu_ranges
    parse_uint count_ones is_set set rule_upsert upsert_pkg target_scan normalize_singles file_write
    any_line parse_outer strip_suffix_char split_last load_lines is_whitespace
handler = tt

-- The package com.c is not named in it yet.
abbrev file : List Text
file = codes "com.b=2" ∷ []

-- A name with a brace is answered with success, and its line is no rule.
brace_accepted : (rule_set (λ _. true) [] (codes "} x") [] (codes "1") cfg).reply ≡ fine
unfolding handler
brace_accepted = refl

brace_unread : (load_lines env (codes "} x=1" ∷ []) initial).rules ≡ []
unfolding handler
brace_unread = refl

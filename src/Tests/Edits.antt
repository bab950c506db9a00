-- ===== src/Tests/Edits.antt =====
-- The rule editor on a small file.
use app_opt.Base.{ℕ, suc, true, false, ◌≡◌, List, [], ◌∷◌, ◌+◌, some, length, if◌then◌else◌}
use app_opt.Base.Text.{Text, codes, contains_char, is_empty}
use app_opt.Config.Line.{rule, comment_scan, closed_pair, kv, close_like}
use app_opt.Edit.{RuleEdit, any_line}
use app_opt.Edit.Bounds.{InRange, target_scan-InRange}
use app_opt.Edit.Delete.{round_idxs, length-delete_round, rule_delete_pkg-ends}
use app_opt.Edit.Ops.{written, refused, delete_round, rule_delete_pkg}
use app_opt.Edit.Scan.{target_scan}
use app_opt.Edit.Singles.{normalize_singles}

abbrev file : List Text
file =
    codes "com.a=0-3 {"
    ∷ codes "  Render=e-core"
    ∷ codes "}"
    ∷ codes "com.b{Main}=1"
    ∷ codes "com.b=2"
    ∷ []

abbrev pkg_a : Text
pkg_a = codes "com.a"

abbrev pkg_c : Text
pkg_c = codes "com.c"

target_scan-InRange_example : InRange 5 (target_scan file pkg_a)
target_scan-InRange_example = target_scan-InRange file pkg_a

length-delete_round_example :
    length (delete_round file (target_scan file pkg_a))
      + length (round_idxs (target_scan file pkg_a))
    ≡ 5
length-delete_round_example = length-delete_round file pkg_a

rule_delete_pkg-ends_example :
    (out : List Text) × (rule_delete_pkg (suc (length (normalize_singles file pkg_a))) file pkg_a
      ≡ some (
          if any_line (target_scan (normalize_singles file pkg_a) pkg_a)
          then written out
          else refused RuleEdit.not_found))
    × (any_line (target_scan out pkg_a) ≡ false)
rule_delete_pkg-ends_example = rule_delete_pkg-ends file pkg_a

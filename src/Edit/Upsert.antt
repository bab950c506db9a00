-- ===== src/Edit/Upsert.antt =====
-- `rule_upsert` of AppOpt/src/rule_edit.rs for a package that the file does not name yet, and what
-- `load_config` of AppOpt/src/config.rs reads of the file then.
use app_opt.Base.{◌≡◌, ◌∙◌, refl, ap, true, false, not, ◌||◌, List, [], ◌∷◌, Option, none, some}
use app_opt.Base.Text.{Text, is_empty, is_some}
use app_opt.Edit.{RuleEdit, PkgLine, ThreadLoc, Target, singles, any_line}
use app_opt.Edit.Ops.{refused, upsert_pkg, rule_upsert}
use app_opt.Edit.Scan.{target_scan}
use app_opt.Edit.Singles.{items_of, sort_items, normalize_singles, move_items}

no_locs :
    (o : Option PkgLine) (ls : List ThreadLoc)
    → (is_some o || not (is_empty ls)) ≡ false
    → (o ≡ none) × (ls ≡ [])
no_locs none [] h = (refl, refl)
no_locs none (l ∷ ls) h = absurd (cc h)
no_locs (some o) ls h = absurd (cc h)

silent : (t : Target) → any_line t ≡ false → (t.pkg_line ≡ none) × (singles t ≡ [])
unfolding any_line
silent t h = no_locs t.pkg_line (singles t) h

-- A file without lines of its own for the package stays as it is.
normalize_singles-none :
    (ls : List Text) (pkg : Text)
    → any_line (target_scan ls pkg) ≡ false
    → normalize_singles ls pkg ≡ ls
unfolding normalize_singles items_of sort_items
normalize_singles-none ls pkg h =
    ap (λ locs. move_items ls pkg (target_scan ls pkg) (sort_items (items_of ls locs)))
      (silent (target_scan ls pkg) h).1

-- A package without a line of its own gets no rule where the last block is open.
pub rule_upsert-malformed :
    (ls : List Text) (pkg cpus : Text)
    → any_line (target_scan ls pkg) ≡ false
    → (target_scan ls pkg).unterminated ≡ true
    → rule_upsert ls pkg [] cpus ≡ refused RuleEdit.malformed
unfolding rule_upsert upsert_pkg
rule_upsert-malformed ls pkg cpus h open_block =
    let t = target_scan ls pkg in
    ap (λ m. upsert_pkg m pkg cpus (target_scan m pkg) (target_scan m pkg).pkg_line)
      (normalize_singles-none ls pkg h)
    ∙ ap (λ l. upsert_pkg ls pkg cpus t l) (silent t h).0
    ∙ rw open_block refl

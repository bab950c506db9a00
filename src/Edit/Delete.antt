-- ===== src/Edit/Delete.antt =====
-- `rule_delete_pkg` of AppOpt/src/rule_edit.rs: its rounds.
use app_opt.Base.{
  or_false, or_true, ℕ, zero, suc, ◌+◌, ◌<◌, ◌≡◌, ◌∙◌, sym, refl, ap, Bool, true, false, not, ◌||◌,
  List, ◌++◌, some, length, length-append, Bool-cases, inl, inr, arith, if◌then◌else◌,
}
use app_opt.Base.Text.{Text, is_empty, is_some}
use app_opt.Edit.{RuleEdit, Target, singles, any_line, pkg_lines}
use app_opt.Edit.Bounds.{target_scan-InRange}
use app_opt.Edit.Idxs.{
  length-remove_idxs, doomed-All, dedup_idxs-Rises, sort_idxs-Climbs, sort_idxs-All, dedup_idxs-All,
  sort_idxs-nonempty, dedup_idxs-nonempty, pkg_lines-nonempty, idxs_of-nonempty,
}
use app_opt.Edit.Ops.{
  written, refused, idxs_of, block_lines, sort_idxs, dedup_idxs, doomed, delete_round, delete_loop,
  deleted, rule_delete_pkg,
}
use app_opt.Edit.Scan.{target_scan}
use app_opt.Edit.Singles.{normalize_singles}

-- The lines that one round takes away, in order and each once.
abbrev pub round_idxs : Target → List ℕ
round_idxs t = dedup_idxs (sort_idxs (doomed t))

-- A round of the deletion takes away exactly as many lines as it has line numbers, so every number
-- is in range at the moment its line is removed.
pub length-delete_round :
    (ls : List Text) (pkg : Text)
    → length (delete_round ls (target_scan ls pkg)) + length (round_idxs (target_scan ls pkg))
      ≡ length ls
unfolding delete_round
length-delete_round ls pkg =
    let t = target_scan ls pkg in
    length-remove_idxs 0 (round_idxs t) ls (dedup_idxs-Rises _ (sort_idxs-Climbs (doomed t))) (
      dedup_idxs-All (length ls) _ (
        sort_idxs-All (length ls) (doomed t)
          (doomed-All (length ls) t (target_scan-InRange ls pkg))))

-- A file that has a line of the package has one that goes.
doomed-nonempty : (t : Target) → any_line t ≡ true → 0 < length (doomed t)
unfolding doomed any_line
doomed-nonempty t h =
    let own =
      length-append (pkg_lines t.pkg_line) (block_lines t t.block_open ++ idxs_of (singles t)) in
    let other = length-append (block_lines t t.block_open) (idxs_of (singles t)) in
    by_line (is_some t.pkg_line) refl h own other
  where
    by_line :
        (b : Bool)
        → is_some t.pkg_line ≡ b
        → (b || not (is_empty (singles t))) ≡ true
        → length (pkg_lines t.pkg_line ++ (block_lines t t.block_open ++ idxs_of (singles t)))
          ≡ length (pkg_lines t.pkg_line)
            + length (block_lines t t.block_open ++ idxs_of (singles t))
        → length (block_lines t t.block_open ++ idxs_of (singles t))
          ≡ length (block_lines t t.block_open) + length (idxs_of (singles t))
        → 0 < length (pkg_lines t.pkg_line ++ (block_lines t t.block_open ++ idxs_of (singles t)))
    by_line true e g own other = omega (arith, own, pkg_lines-nonempty t.pkg_line e)
    by_line false e g own other = omega (arith, own, other, idxs_of-nonempty (singles t) g)

delete_round-shrinks :
    (ls : List Text) (pkg : Text)
    → any_line (target_scan ls pkg) ≡ true
    → length (delete_round ls (target_scan ls pkg)) < length ls
delete_round-shrinks ls pkg h =
    let t = target_scan ls pkg in
    let some_idx =
      dedup_idxs-nonempty (sort_idxs (doomed t))
        (sort_idxs-nonempty (doomed t) (doomed-nonempty t h)) in
    omega (arith, length-delete_round ls pkg, some_idx)

-- The result of the loop, whose flag says that a round was made.
abbrev LoopResult : ℕ → Text → List Text → Bool → Type 0
LoopResult fuel pkg ls removed =
    (out : List Text) × (delete_loop fuel pkg ls removed
      ≡ some (out, (removed || any_line (target_scan ls pkg))))
    × (any_line (target_scan out pkg) ≡ false)

delete_loop-stop :
    (fuel : ℕ) (pkg : Text) (ls : List Text) (removed : Bool)
    → any_line (target_scan ls pkg) ≡ false
    → delete_loop (suc fuel) pkg ls removed ≡ some (ls, removed)
unfolding delete_loop
delete_loop-stop fuel pkg ls removed e = rw e refl

delete_loop-step :
    (fuel : ℕ) (pkg : Text) (ls : List Text) (removed : Bool)
    → any_line (target_scan ls pkg) ≡ true
    → delete_loop (suc fuel) pkg ls removed
      ≡ delete_loop fuel pkg (delete_round ls (target_scan ls pkg)) true
unfolding delete_loop
delete_loop-step fuel pkg ls removed e = rw e refl

delete_loop-enough :
    (fuel : ℕ) (pkg : Text) (ls : List Text) (removed : Bool)
    → length ls < fuel
    → LoopResult fuel pkg ls removed
delete_loop-enough zero pkg ls removed h = absurd (omega (arith, h))
delete_loop-enough (suc fuel) pkg ls removed h = elim (Bool-cases (any_line (target_scan ls pkg))) [
  | inr e ↦ (
    ls,
    delete_loop-stop fuel pkg ls removed e
        ∙ ap (λ b. some (ls, b)) (sym (or_false removed) ∙ ap (λ b. removed || b) (sym e)),
    e,
  )
  | inl e ↦
      let rest =
        delete_loop-enough fuel pkg (delete_round ls (target_scan ls pkg)) true
          (omega (arith, h, delete_round-shrinks ls pkg e)) in
      (
        rest.0,
        delete_loop-step fuel pkg ls removed e
            ∙ rest.1
            ∙ ap (λ b. some (rest.0, b)) (sym (or_true removed) ∙ ap (λ b. removed || b) (sym e)),
        rest.2,
      )
]

-- Deleting a package ends: the loop needs at most one round per line and one more. It answers that
-- the package is not found just when the file has no line of it, and otherwise the scan of the lines
-- it writes finds no line of the package.
pub rule_delete_pkg-ends :
    (lines : List Text) (pkg : Text)
    → (out : List Text) × (rule_delete_pkg (suc (length (normalize_singles lines pkg))) lines pkg
        ≡ some (
            if any_line (target_scan (normalize_singles lines pkg) pkg)
            then written out
            else refused RuleEdit.not_found))
      × (any_line (target_scan out pkg) ≡ false)
unfolding rule_delete_pkg
rule_delete_pkg-ends lines pkg =
    let ls = normalize_singles lines pkg in
    let r = delete_loop-enough (suc (length ls)) pkg ls false (omega arith) in
    (r.0, ap deleted r.1, r.2)

-- ===== src/Edit/Ops.antt =====
-- The operations of AppOpt/src/rule_edit.rs on the lines of the file. `write_file` says whether the new
-- text gets to its place.
use app_opt.Base.{
  ℕ, zero, suc, ◌+◌, ◌-◌, Bool, true, false, not, ◌&&◌, ◌||◌, List, [], ◌∷◌, ◌++◌, Option, none,
  some, leb, max, set, filter, erase_idx, splice_at, ◌==◌, if◌then◌else◌,
}
use app_opt.Base.Dict.{lookup, text_eq}
use app_opt.Base.Text.{
  Text, codes, is_empty, contains_char, eq_text, trim, strip_prefix, join_lines,
}
use app_opt.Config.Line.{OuterLine, parse_outer}
use app_opt.Edit.{
  RuleEdit, PkgLine, ThreadLoc, Target, bare_open_line, with_comment, spec_swap, line_at,
  line_remove, singles, any_line, pkg_lines,
}
use app_opt.Edit.Scan.{target_scan}
use app_opt.Edit.Singles.{normalize_singles, thread_line, open_line, close_line}

-- What an operation ends with: the lines to write, or the answer without a write.
pub data Edited : Type 0 where
  written : List Text → Edited
  refused : RuleEdit → Edited

-- `file_write`: the new text, and whether the temporary file could be written and renamed.
unfoldable pub file_write : (Text → Bool) → List Text → RuleEdit
file_write write_file ls =
    if write_file (join_lines ls ++ (b'\n' ∷ [])) then RuleEdit.ok else RuleEdit.io_err

abbrev pub answer : (Text → Bool) → Edited → RuleEdit
answer write_file (written ls) = file_write write_file ls
answer write_file (refused e) = e

-- Whether a line is `{` alone.
abbrev is_brace : OuterLine → Bool
is_brace (OuterLine.bare_open pkg) = is_empty pkg
is_brace _ = false

abbrev drop_brace : Option ℕ → List Text → List Text
drop_brace none ls = ls
drop_brace (some i) ls = if is_brace (parse_outer (trim (line_at ls i))) then erase_idx ls i else ls

abbrev pub rule_line : Text → Text → Text
rule_line pkg cpus = pkg ++ (b'=' ∷ cpus)

-- `rule_upsert` for the package itself.
unfoldable pub upsert_pkg : List Text → Text → Text → Target → Option PkgLine → Edited
upsert_pkg ls pkg cpus t (some (PkgLine.standalone i)) =
    written (set ls i (spec_swap (line_at ls i) cpus))
upsert_pkg ls pkg cpus t (some (PkgLine.bare_pending i)) = written (
    drop_brace t.block_open
      (set ls i (with_comment (rule_line pkg cpus ++ codes " {") (line_at ls i))))
upsert_pkg ls pkg cpus t (some (PkgLine.open_inline i)) =
    written (set ls i (spec_swap (line_at ls i) cpus))
upsert_pkg ls pkg cpus t (some (PkgLine.bare_open i)) =
    written (set ls i (with_comment (rule_line pkg cpus ++ codes " {") (line_at ls i)))
upsert_pkg ls pkg cpus t none =
    if t.unterminated then refused RuleEdit.malformed else written (ls ++ (rule_line pkg cpus ∷ []))

-- `for loc in locs.iter().rev()`
unfoldable pub remove_locs : Text → List ThreadLoc → List Text → List Text
remove_locs pkg [] ls = ls
remove_locs pkg (loc ∷ locs) ls = line_remove (remove_locs pkg locs ls) pkg loc

-- The last location gets the new value, and the others go.
abbrev swap_last : Text → Text → List ThreadLoc → List Text → List Text × List ThreadLoc
swap_last pkg cpus [] ls = (ls, [])
swap_last pkg cpus (loc ∷ []) ls = (set ls loc.idx (spec_swap (line_at ls loc.idx) cpus), [])
swap_last pkg cpus (loc ∷ next ∷ locs) ls =
    let rest = swap_last pkg cpus (next ∷ locs) ls in (rest.0, loc ∷ rest.1)

abbrev swap_thread : Text → Text → List ThreadLoc → List Text → List Text
swap_thread pkg cpus locs ls =
    let swapped = swap_last pkg cpus locs ls in remove_locs pkg swapped.1 swapped.0

abbrev append_block : List Text → Text → Text → Text → Target → Edited
append_block ls pkg thread cpus t =
    if t.unterminated
    then refused RuleEdit.malformed
    else written (ls ++ (bare_open_line pkg ∷ thread_line thread cpus ∷ close_line))

-- A thread that has no line yet.
unfoldable pub insert_thread :
    List Text → Text → Text → Text → Target → Option ℕ → Option PkgLine → Edited
insert_thread ls pkg thread cpus t (some close) l =
    written (splice_at close (thread_line thread cpus ∷ []) ls)
insert_thread ls pkg thread cpus t none (some (PkgLine.standalone i)) =
    written (open_line i (thread_line thread cpus ∷ close_line) ls)
insert_thread ls pkg thread cpus t none (some (PkgLine.open_inline i)) =
    append_block ls pkg thread cpus t
insert_thread ls pkg thread cpus t none (some (PkgLine.bare_open i)) =
    append_block ls pkg thread cpus t
insert_thread ls pkg thread cpus t none (some (PkgLine.bare_pending i)) =
    append_block ls pkg thread cpus t
insert_thread ls pkg thread cpus t none none = append_block ls pkg thread cpus t

unfoldable pub upsert_thread :
    List Text → Text → Text → Text → Target → Option (List ThreadLoc) → Edited
unfolding insert_thread remove_locs
upsert_thread ls pkg thread cpus t (some locs) = written (swap_thread pkg cpus locs ls)
upsert_thread ls pkg thread cpus t none =
    insert_thread ls pkg thread cpus t t.block_close t.pkg_line

unfoldable pub rule_upsert : List Text → Text → Text → Text → Edited
unfolding upsert_pkg upsert_thread
rule_upsert lines pkg thread cpus =
    let ls = normalize_singles lines pkg in
    let t = target_scan ls pkg in
    if is_empty thread
    then upsert_pkg ls pkg cpus t t.pkg_line
    else upsert_thread ls pkg thread cpus t (lookup thread t.threads)

unfoldable pub delete_line : List Text → Text → Option PkgLine → Edited
delete_line ls pkg (some (PkgLine.standalone i)) = written (erase_idx ls i)
delete_line ls pkg (some (PkgLine.open_inline i)) = written (set ls i (bare_open_line pkg))
delete_line ls pkg (some (PkgLine.bare_open i)) = refused RuleEdit.not_found
delete_line ls pkg (some (PkgLine.bare_pending i)) = refused RuleEdit.not_found
delete_line ls pkg none = refused RuleEdit.not_found

abbrev delete_thread : List Text → Text → Option (List ThreadLoc) → Edited
delete_thread ls pkg (some locs) = written (remove_locs pkg locs ls)
delete_thread ls pkg none = refused RuleEdit.not_found

unfoldable pub rule_delete : List Text → Text → Text → Edited
unfolding delete_line remove_locs
rule_delete lines pkg thread =
    let ls = normalize_singles lines pkg in
    let t = target_scan ls pkg in
    if is_empty thread
    then delete_line ls pkg t.pkg_line
    else delete_thread ls pkg (lookup thread t.threads)

-- `n` numbers from `i` on: `open..=end` has `suc end - open`.
unfoldable pub numbers : ℕ → ℕ → List ℕ
numbers i zero = []
numbers i (suc n) = i ∷ numbers (i + 1) n

unfoldable pub idxs_of : List ThreadLoc → List ℕ
idxs_of [] = []
idxs_of (l ∷ locs) = l.idx ∷ idxs_of locs

-- The last line of a block that is not closed: the greatest of its threads, or the line that opens it.
abbrev pub inner_locs : List (Text × List ThreadLoc) → List ThreadLoc
inner_locs [] = []
inner_locs ((name, locs) ∷ m) = filter (λ l. not l.single) locs ++ inner_locs m

abbrev pub greatest : ℕ → List ℕ → ℕ
greatest d [] = d
greatest d (i ∷ []) = i
greatest d (i ∷ j ∷ is) = max i (greatest d (j ∷ is))

abbrev pub end_of : Target → ℕ → Option ℕ → ℕ
end_of t opens (some close) = close
end_of t opens none = greatest opens (idxs_of (inner_locs t.threads))

abbrev pub block_lines : Target → Option ℕ → List ℕ
block_lines t none = []
block_lines t (some opens) = numbers opens (suc (end_of t opens t.block_close) - opens)

unfoldable pub insert_idx : ℕ → List ℕ → List ℕ
insert_idx i [] = i ∷ []
insert_idx i (j ∷ js) = let rest = insert_idx i js in if leb i j then i ∷ j ∷ js else j ∷ rest

unfoldable pub sort_idxs : List ℕ → List ℕ
unfolding insert_idx
sort_idxs [] = []
sort_idxs (i ∷ is) = insert_idx i (sort_idxs is)

unfoldable pub dedup_idx : ℕ → List ℕ → List ℕ
dedup_idx i [] = []
dedup_idx i (j ∷ js) = if i == j then dedup_idx i js else j ∷ dedup_idx j js

unfoldable pub dedup_idxs : List ℕ → List ℕ
unfolding dedup_idx
dedup_idxs [] = []
dedup_idxs (i ∷ is) = i ∷ dedup_idx i is

-- `del`, before it is sorted.
unfoldable pub doomed : Target → List ℕ
unfolding numbers idxs_of
doomed t = pkg_lines t.pkg_line ++ (block_lines t t.block_open ++ idxs_of (singles t))

-- `for i in del.into_iter().rev()`
unfoldable pub remove_idxs : List ℕ → List Text → List Text
remove_idxs [] ls = ls
remove_idxs (i ∷ is) ls = erase_idx (remove_idxs is ls) i

unfoldable pub delete_round : List Text → Target → List Text
unfolding sort_idxs dedup_idxs doomed remove_idxs
delete_round ls t = remove_idxs (dedup_idxs (sort_idxs (doomed t))) ls

-- The loop of `rule_delete_pkg` on fuel: `none` is the end of the fuel.
unfoldable pub delete_loop : ℕ → Text → List Text → Bool → Option (List Text × Bool)
delete_loop zero pkg ls removed = none
delete_loop (suc fuel) pkg ls removed =
    let t = target_scan ls pkg in
    let rest = delete_loop fuel pkg (delete_round ls t) true in
    if any_line t then rest else some (ls, removed)

abbrev pub deleted : Option (List Text × Bool) → Option Edited
deleted none = none
deleted (some (ls, removed)) = some (if removed then written ls else refused RuleEdit.not_found)

unfoldable pub rule_delete_pkg : ℕ → List Text → Text → Option Edited
unfolding delete_loop
rule_delete_pkg fuel lines pkg = deleted (delete_loop fuel pkg (normalize_singles lines pkg) false)

-- What follows the old name on a line, where the new one needs another text.
abbrev rename_tail : Text → Text → Text
rename_tail new rest =
    if contains_char b'=' new && (is_empty (trim rest) || eq_text (trim rest) (codes "="))
    then codes "="
    else if contains_char b'=' new && eq_text (trim rest) (codes "{")
    then codes "= {"
    else rest

abbrev renamed : Text → Text → Option Text → Text
renamed new line none = line
renamed new line (some rest) = new ++ rename_tail new rest

unfoldable pub rename_lines : Text → Text → List ℕ → List Text → List Text
rename_lines old new [] ls = ls
rename_lines old new (i ∷ is) ls =
    rename_lines old new is
      (set ls i (renamed new (line_at ls i) (strip_prefix old (trim (line_at ls i)))))

unfoldable pub rename_loop : ℕ → Text → Text → List Text → Option (List Text)
unfolding rename_lines idxs_of
rename_loop zero old new ls = none
rename_loop (suc fuel) old new ls =
    let t = target_scan ls old in
    let idxs = idxs_of (singles t) ++ pkg_lines t.pkg_line in
    let rest = rename_loop fuel old new (rename_lines old new idxs ls) in
    if is_empty idxs then some ls else rest

abbrev and_write : Option (List Text) → Option Edited
and_write none = none
and_write (some ls) = some (written ls)

unfoldable pub rule_rename : ℕ → List Text → Text → Text → Option Edited
unfolding rename_loop
rule_rename fuel lines old new =
    let ls = normalize_singles lines old in
    if not (any_line (target_scan ls old))
    then some (refused RuleEdit.not_found)
    else if any_line (target_scan ls new)
    then some (refused RuleEdit.conflict)
    else and_write (rename_loop fuel old new ls)

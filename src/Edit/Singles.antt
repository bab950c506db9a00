-- ===== src/Edit/Singles.antt =====
-- `normalize_singles` of AppOpt/src/rule_edit.rs: lines `pkg{thread}=cpus` move into a block.
use app_opt.Base.{
  ℕ, ◌+◌, Bool, true, false, not, ◌&&◌, ◌||◌, List, [], ◌∷◌, ◌++◌, Option, none, some, any, leb,
  min, length, set, splice_at, if◌then◌else◌,
}
use app_opt.Base.Text.{Text, codes, is_some, trim, trim_end, strip_suffix_char}
use app_opt.Config.Line.{strip_comment, split_single_line}
use app_opt.Edit.{
  PkgLine, ThreadLoc, Target, bare_open_line, with_comment, line_at, line_remove, singles,
}
use app_opt.Edit.Scan.{target_scan}

-- A location with the line that takes its place.
abbrev pub Item : Type 0
Item = ThreadLoc × Text

abbrev pub thread_line : Text → Text → Text
thread_line thread cpus = b'\t' ∷ (thread ++ (b'=' ∷ cpus))

abbrev open_body : Text → Option Text → Text
open_body raw none = raw
open_body raw (some b) = trim_end b

abbrev item_for : ThreadLoc → Text → Option (Text × Text × Text) → List Item
item_for loc raw_line none = []
item_for loc raw_line (some (pkg, th, cp)) = (loc, with_comment (thread_line th cp) raw_line) ∷ []

abbrev item_of : ThreadLoc → Text → List Item
item_of loc raw_line =
    let raw = strip_comment raw_line in
    item_for loc raw_line (split_single_line (open_body raw (strip_suffix_char b'{' raw)))

unfoldable pub items_of : List Text → List ThreadLoc → List Item
items_of ls [] = []
items_of ls (loc ∷ locs) = item_of loc (trim (line_at ls loc.idx)) ++ items_of ls locs

-- `sort_unstable_by_key` by the line: no two locations are on one line.
unfoldable pub insert_item : Item → List Item → List Item
insert_item a [] = a ∷ []
insert_item a (b ∷ bs) =
    let rest = insert_item a bs in if leb a.0.idx b.0.idx then a ∷ b ∷ bs else b ∷ rest

unfoldable pub sort_items : List Item → List Item
unfolding insert_item
sort_items [] = []
sort_items (a ∷ more) = insert_item a (sort_items more)

abbrev pub is_standalone : Option PkgLine → Bool
is_standalone none = true
is_standalone (some (PkgLine.standalone _)) = true
is_standalone (some _) = false

-- A block that is not closed keeps what belongs to it.
abbrev keeps_block : Target → List Item → Bool
keeps_block t items =
    not (is_some t.block_close) && (any (λ a. a.0.opens) items || not (is_standalone t.pkg_line))

-- `for (loc, _) in items.iter().rev()`
unfoldable pub remove_items : Text → List Item → List Text → List Text
remove_items pkg [] ls = ls
remove_items pkg (a ∷ more) ls = line_remove (remove_items pkg more ls) pkg a.0

unfoldable pub item_lines : List Item → List Text
item_lines [] = []
item_lines (a ∷ more) = a.1 ∷ item_lines more

-- `lines[i]` with a brace behind it, and lines behind that.
abbrev pub open_line : ℕ → List Text → List Text → List Text
open_line i chunk ls = splice_at (i + 1) chunk (set ls i (trim_end (line_at ls i) ++ codes " {"))

abbrev pub close_line : List Text
close_line = codes "}" ∷ []

-- Where the lines go, after the new scan.
abbrev place_items : Text → ℕ → List Text → Option ℕ → Option PkgLine → List Text → List Text
place_items pkg at new (some close) l ls = splice_at close new ls
place_items pkg at new none (some (PkgLine.standalone i)) ls = open_line i (new ++ close_line) ls
place_items pkg at new none l ls =
    splice_at (min at (length ls)) (bare_open_line pkg ∷ (new ++ close_line)) ls

abbrev pub move_items : List Text → Text → Target → List Item → List Text
move_items ls pkg t [] = ls
move_items ls pkg t (a ∷ more) =
    if keeps_block t (a ∷ more)
    then ls
    else (let removed = remove_items pkg (a ∷ more) ls in
        let t2 = target_scan removed pkg in
        place_items pkg a.0.idx (item_lines (a ∷ more)) t2.block_close t2.pkg_line removed)

unfoldable pub normalize_singles : List Text → Text → List Text
unfolding items_of sort_items remove_items item_lines
normalize_singles ls pkg =
    let t = target_scan ls pkg in move_items ls pkg t (sort_items (items_of ls (singles t)))

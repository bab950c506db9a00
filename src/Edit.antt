-- ===== src/Edit.antt =====
-- AppOpt/src/rule_edit.rs: the edits of the rule file that the web interface asks for. A file is the
-- list of its lines. Here are the types, and the functions on one line.
pub mod Scan
pub mod Bounds
pub mod Mentions
pub mod Track
pub mod Outer
pub mod Loaded
pub mod Upsert
pub mod Idxs
pub mod Delete
pub mod Singles
pub mod Ops
use app_opt.Base.{
  ℕ, ◌-◌, Bool, true, false, not, ◌||◌, List, [], ◌∷◌, ◌++◌, Option, none, some, length, take, drop,
  get_or, set, erase_idx, filter, ◌==◌, if◌then◌else◌,
}
use app_opt.Base.Text.{
  Text, codes, is_empty, is_whitespace, contains_char, is_some, trim_start, split_last,
}
use app_opt.Config.Line.{comment_at, or_length}

pub data RuleEdit : Type 0 where
  ok not_found conflict malformed io_err : RuleEdit

pub data PkgLine : Type 0 where
  standalone : ℕ → PkgLine
  open_inline : ℕ → PkgLine
  bare_open : ℕ → PkgLine
  bare_pending : ℕ → PkgLine

pub record ThreadLoc : Type 0 where
  pub idx : ℕ
  pub single : Bool
  pub closed : Bool
  pub opens : Bool

pub record Target : Type 0 where
  pub pkg_line : Option PkgLine
  pub block_open : Option ℕ
  pub block_close : Option ℕ
  pub threads : List (Text × List ThreadLoc)
  pub unterminated : Bool

unfoldable pub bare_open_line : Text → Text
bare_open_line pkg = if contains_char b'=' pkg then pkg ++ codes "= {" else pkg ++ codes " {"

abbrev comment_from : Option ℕ → Text → Text
comment_from none old = []
comment_from (some at) old = drop at old

unfoldable pub with_comment : Text → Text → Text
with_comment new_line old = new_line ++ comment_from (comment_at old) old

-- What ends a value, and what of the text behind it stays.
abbrev is_tail : ℕ → Bool
is_tail c = is_whitespace c || c == b'{' || c == b'}'

-- `val[v_end..]`
unfoldable pub behind_value : Text → Text
behind_value [] = []
behind_value (c ∷ s) = if is_tail c then c ∷ s else behind_value s

-- The line in front of its comment, split at the last `=`.
abbrev swap_value : Text → Text → Text → Option (Text × Text) → Text
swap_value raw cpus comment none = raw
swap_value raw cpus comment (some (key, rhs)) =
    let val = trim_start rhs in
    (key ++ (b'=' ∷ take (length rhs - length val) rhs))
    ++ (cpus ++ (filter is_tail (behind_value val) ++ comment))

unfoldable pub spec_swap : Text → Text → Text
unfolding behind_value
spec_swap raw cpus =
    let cut = or_length (comment_at raw) raw in
    swap_value raw cpus (drop cut raw) (split_last b'=' (take cut raw))

-- `lines[i]`, where `i` is in range.
abbrev pub line_at : List Text → ℕ → Text
line_at ls i = get_or ls i []

unfoldable pub line_remove : List Text → Text → ThreadLoc → List Text
line_remove ls pkg loc =
    if loc.opens
    then set ls loc.idx (with_comment (bare_open_line pkg) (line_at ls loc.idx))
    else if loc.closed
    then set ls loc.idx (with_comment (codes "}") (line_at ls loc.idx))
    else erase_idx ls loc.idx

abbrev pub single_locs : List (Text × List ThreadLoc) → List ThreadLoc
single_locs [] = []
single_locs ((name, locs) ∷ m) = filter (λ l. l.single) locs ++ single_locs m

-- `Target::singles` and `Target::any_line`
abbrev pub singles : Target → List ThreadLoc
singles t = single_locs t.threads

unfoldable pub any_line : Target → Bool
any_line t = is_some t.pkg_line || not (is_empty (singles t))

abbrev pub line_of : PkgLine → ℕ
line_of (PkgLine.standalone i) = i
line_of (PkgLine.open_inline i) = i
line_of (PkgLine.bare_open i) = i
line_of (PkgLine.bare_pending i) = i

abbrev pub pkg_lines : Option PkgLine → List ℕ
pkg_lines none = []
pkg_lines (some l) = line_of l ∷ []

-- ===== src/Edit/Scan.antt =====
-- `target_scan` of AppOpt/src/rule_edit.rs: where a file speaks of one package.
use app_opt.Base.{
  ℕ, ◌+◌, Bool, true, false, not, ◌&&◌, List, [], ◌∷◌, ◌++◌, Option, none, some, if◌then◌else◌,
}
use app_opt.Base.Text.{Text, is_empty, eq_text, is_some, contains_char, trim}
use app_opt.Config.Line.{OuterLine, RuleLine, close_like, split_rule_line, parse_outer}
use app_opt.Config.Load.{is_skipped}
use app_opt.Edit.{PkgLine, ThreadLoc, Target, line_at}

-- The target with the other local variables of `target_scan`.
pub record Scan : Type 0 where
  pub target : Target
  pub waits : Option ℕ
  pub in_block : Bool
  pub target_block : Bool

abbrev pub start : Scan
start = record {
  target = record {
    pkg_line = none;
    block_open = none;
    block_close = none;
    threads = [];
    unterminated = false;
  };
  waits = none;
  in_block = false;
  target_block = false;
}

-- `threads.entry(name).or_default().push(loc)`
unfoldable pub push_loc :
    Text → ThreadLoc → List (Text × List ThreadLoc) → List (Text × List ThreadLoc)
push_loc name loc [] = (name, loc ∷ []) ∷ []
push_loc name loc ((n, locs) ∷ m) =
    if eq_text n name then (n, locs ++ (loc ∷ [])) ∷ m else (n, locs) ∷ push_loc name loc m

abbrev pub add_loc : Text → ThreadLoc → Target → Target
add_loc name loc t = record t { threads = push_loc name loc t.threads }

-- The closures `block_close` and `block_open`.
abbrev pub close_target : Bool → ℕ → Target → Target
close_target target_block i t =
    if target_block && not (is_some t.block_close) then record t { block_close = some i } else t

abbrev pub open_target : ℕ → Target → Target
open_target i t = if is_some t.block_close then t else record t { block_open = some i }

abbrev pub leave : ℕ → Scan → Scan
leave i s = record s {
  target = close_target s.target_block i s.target;
  in_block = false;
  target_block = false;
}

abbrev pub first_line : PkgLine → Target → Target
first_line l t = if is_some t.pkg_line then t else record t { pkg_line = some l }

-- A block opens: `is_target` says whether it is one of the package.
abbrev pub enter : Bool → Target → Scan → Scan
enter is_target t s =
    if is_target
    then record s { target = t; waits = none; in_block = true; target_block = true }
    else record s { waits = none; in_block = true }

abbrev pub in_target : ℕ → RuleLine → Scan → Scan
in_target i r s =
    if s.target_block && not (is_empty r.name)
    then record s {
      target =
          add_loc r.name (record { idx = i; single = false; closed = r.closed; opens = false })
            s.target;
    }
    else s

abbrev pub scan_rule : ℕ → Text → Option RuleLine → Scan → Scan
scan_rule i p (some r) s = if r.closed then leave i (in_target i r s) else in_target i r s
scan_rule i p none s = if contains_char b'}' p then leave i s else s

-- A line inside a block.
unfoldable pub scan_block : ℕ → Text → Scan → Scan
scan_block i p s = if close_like p then leave i s else scan_rule i p (split_rule_line p) s

-- `Single`: its location, and then its block.
abbrev pub note_single : Text → ℕ → Text → Text → Bool → Target → Target
note_single pkg i pg th opens t =
    if eq_text pg pkg && not (is_empty th)
    then add_loc th (record { idx = i; single = true; closed = false; opens = opens }) t
    else t

-- The package of a line that waits for its block.
abbrev pub waiting_pkg : OuterLine → Option Text
waiting_pkg (OuterLine.pending pp) = some pp
waiting_pkg _ = none

abbrev pub is_pkg : Text → Option Text → Bool
is_pkg pkg none = false
is_pkg pkg (some pp) = eq_text pp pkg

-- `{` alone: the line that waits, if any, is the owner's.
abbrev pub open_waiting : List Text → Text → ℕ → Option ℕ → Scan → Scan
open_waiting ls pkg i none s = s
open_waiting ls pkg i (some pi) s =
    enter (is_pkg pkg (waiting_pkg (parse_outer (trim (line_at ls pi)))))
      (first_line (PkgLine.bare_pending pi) (open_target i s.target)) s

-- A line outside of a block; `ls` are all the lines.
unfoldable pub scan_outer : List Text → Text → ℕ → OuterLine → Scan → Scan
scan_outer ls pkg i (OuterLine.single pg th cpus opens) s =
    let noted = record s { target = note_single pkg i pg th opens s.target; waits = none } in
    if opens then enter (eq_text pg pkg) (open_target i noted.target) noted else noted
scan_outer ls pkg i (OuterLine.rule pg cpus opens) s =
    if opens
    then enter (eq_text pg pkg) (first_line (PkgLine.open_inline i) (open_target i s.target)) s
    else record s {
      target = if eq_text pg pkg then first_line (PkgLine.standalone i) s.target else s.target;
      waits = none;
    }
scan_outer ls pkg i (OuterLine.bare_open owner) s =
    if is_empty owner
    then open_waiting ls pkg i s.waits s
    else enter (eq_text owner pkg) (first_line (PkgLine.bare_open i) (open_target i s.target)) s
scan_outer ls pkg i (OuterLine.pending p) s = record s { waits = some i }
scan_outer ls pkg i OuterLine.junk s = record s { waits = none }

unfoldable pub scan_line : List Text → Text → ℕ → Text → Scan → Scan
unfolding scan_block scan_outer
scan_line ls pkg i p s =
    if is_skipped p
    then s
    else if s.in_block
    then scan_block i p s
    else scan_outer ls pkg i (parse_outer p) s

-- The loop over the lines from `i` on.
unfoldable pub scan_lines : List Text → Text → ℕ → List Text → Scan → Scan
unfolding scan_line
scan_lines ls pkg i [] s = s
scan_lines ls pkg i (raw ∷ rest) s =
    scan_lines ls pkg (i + 1) rest (scan_line ls pkg i (trim raw) s)

unfoldable pub target_scan : List Text → Text → Target
unfolding scan_lines
target_scan ls pkg =
    let s = scan_lines ls pkg 0 ls start in record s.target { unterminated = s.in_block }

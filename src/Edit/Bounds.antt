-- ===== src/Edit/Bounds.antt =====
-- The line numbers that `target_scan` of AppOpt/src/rule_edit.rs records.
use app_opt.Base.{
  ℕ, ◌+◌, ◌<◌, ◌≡◌, refl, Bool, not, ◌&&◌, List, [], ◌∷◌, Option, none, some, All, All-append,
  length, if_elim, arith,
}
use app_opt.Base.Text.{Text, is_empty, eq_text, is_some, contains_char, trim}
use app_opt.Config.Line.{OuterLine, RuleLine, close_like, split_rule_line, parse_outer}
use app_opt.Config.Load.{is_skipped}
use app_opt.Edit.{PkgLine, ThreadLoc, Target, line_at, line_of, pkg_lines}
use app_opt.Edit.Scan.{
  Scan, start, push_loc, add_loc, close_target, open_target, leave, first_line, enter, in_target,
  scan_rule, scan_block, note_single, waiting_pkg, is_pkg, open_waiting, scan_outer, scan_line,
  scan_lines, target_scan,
}

abbrev pub Below : ℕ → Option ℕ → Type 0
Below n none = Unit
Below n (some i) = i < n

abbrev pub LocsBelow : ℕ → List ThreadLoc → Type 0
LocsBelow n = All (λ l. l.idx < n)

-- Every line number of a target is below `n`.
pub record InRange (n : ℕ) (t : Target) : Type 0 where
  pub line : All (λ i. i < n) (pkg_lines t.pkg_line)
  pub opened : Below n t.block_open
  pub closed : Below n t.block_close
  pub threads : All (λ e. LocsBelow n e.1) t.threads

-- The same of the target of a scan, and of the line that waits.
record ScanInRange (n : ℕ) (s : Scan) : Type 0 where
  target : InRange n s.target
  waits : Below n s.waits

push_loc-Below :
    (n : ℕ) (name : Text) (loc : ThreadLoc) (m : List (Text × List ThreadLoc))
    → loc.idx < n
    → All (λ e. LocsBelow n e.1) m
    → All (λ e. LocsBelow n e.1) (push_loc name loc m)
unfolding push_loc
push_loc-Below n name loc [] h hm = ((h, tt), tt)
push_loc-Below n name loc ((k, locs) ∷ m) h hm =
    if_elim (All (λ e. LocsBelow n e.1)) (eq_text k name)
      (All-append (λ l. l.idx < n) locs (loc ∷ []) hm.0 (h, tt), hm.1)
      (hm.0, push_loc-Below n name loc m h hm.1)

module _ (n i : ℕ) (lt : i < n) where
  add_loc-InRange :
      (name : Text) (loc : ThreadLoc) (t : Target)
      → loc.idx ≡ i
      → InRange n t
      → InRange n (add_loc name loc t)
  add_loc-InRange name loc t e h = record {
    line = h.line;
    opened = h.opened;
    closed = h.closed;
    threads = push_loc-Below n name loc t.threads (omega (arith, e, lt)) h.threads;
  }

  close_target-InRange : (b : Bool) (t : Target) → InRange n t → InRange n (close_target b i t)
  close_target-InRange b t h =
      if_elim (InRange n) (b && not (is_some t.block_close))
        (record { line = h.line; opened = h.opened; closed = lt; threads = h.threads }) h

  open_target-InRange : (t : Target) → InRange n t → InRange n (open_target i t)
  open_target-InRange t h =
      if_elim (InRange n) (is_some t.block_close) h
        (record { line = h.line; opened = lt; closed = h.closed; threads = h.threads })

  first_line-InRange :
      (l : PkgLine) (t : Target) → line_of l < n → InRange n t → InRange n (first_line l t)
  first_line-InRange l t hl h =
      if_elim (InRange n) (is_some t.pkg_line) h
        (record { line = (hl, tt); opened = h.opened; closed = h.closed; threads = h.threads })

  enter-InRange :
      (b : Bool) (t : Target) (s : Scan)
      → InRange n t
      → InRange n s.target
      → ScanInRange n (enter b t s)
  enter-InRange b t s ht h =
      if_elim (ScanInRange n) b (record { target = ht; waits = tt })
        (record { target = h; waits = tt })

  leave-InRange : (s : Scan) → ScanInRange n s → ScanInRange n (leave i s)
  leave-InRange s h = record {
    target = close_target-InRange s.target_block s.target h.target;
    waits = h.waits;
  }

  in_target-InRange : (r : RuleLine) (s : Scan) → ScanInRange n s → ScanInRange n (in_target i r s)
  in_target-InRange r s h =
      if_elim (ScanInRange n) (s.target_block && not (is_empty r.name))
        (record { target = add_loc-InRange r.name _ s.target refl h.target; waits = h.waits }) h

  scan_rule-InRange :
      (p : Text) (r : Option RuleLine) (s : Scan)
      → ScanInRange n s
      → ScanInRange n (scan_rule i p r s)
  scan_rule-InRange p (some r) s h =
      if_elim (ScanInRange n) r.closed (leave-InRange _ (in_target-InRange r s h))
        (in_target-InRange r s h)
  scan_rule-InRange p none s h =
      if_elim (ScanInRange n) (contains_char b'}' p) (leave-InRange s h) h

  scan_block-InRange : (p : Text) (s : Scan) → ScanInRange n s → ScanInRange n (scan_block i p s)
  unfolding scan_block
  scan_block-InRange p s h =
      if_elim (ScanInRange n) (close_like p) (leave-InRange s h)
        (scan_rule-InRange p (split_rule_line p) s h)

  note_single-InRange :
      (pkg pg th : Text) (opens : Bool) (t : Target)
      → InRange n t
      → InRange n (note_single pkg i pg th opens t)
  note_single-InRange pkg pg th opens t h =
      if_elim (InRange n) (eq_text pg pkg && not (is_empty th)) (add_loc-InRange th _ t refl h) h

  open_waiting-InRange :
      (ls : List Text) (pkg : Text) (w : Option ℕ) (s : Scan)
      → Below n w
      → ScanInRange n s
      → ScanInRange n (open_waiting ls pkg i w s)
  open_waiting-InRange ls pkg none s hw h = h
  open_waiting-InRange ls pkg (some pi) s hw h =
      enter-InRange (is_pkg pkg (waiting_pkg (parse_outer (trim (line_at ls pi))))) _ s
        (first_line-InRange (PkgLine.bare_pending pi) _ hw (open_target-InRange s.target h.target))
        h.target

  scan_outer-InRange :
      (ls : List Text) (pkg : Text) (o : OuterLine) (s : Scan)
      → ScanInRange n s
      → ScanInRange n (scan_outer ls pkg i o s)
  unfolding scan_outer
  scan_outer-InRange ls pkg (OuterLine.single pg th cpus opens) s h =
      let noted = note_single-InRange pkg pg th opens s.target h.target in
      if_elim (ScanInRange n) opens
        (enter-InRange (eq_text pg pkg) _
          (record s { target = note_single pkg i pg th opens s.target; waits = none })
          (open_target-InRange _ noted) noted)
        (record { target = noted; waits = tt })
  scan_outer-InRange ls pkg (OuterLine.rule pg cpus opens) s h =
      if_elim (ScanInRange n) opens
        (enter-InRange (eq_text pg pkg) _ s
          (first_line-InRange (PkgLine.open_inline i) _ lt (open_target-InRange s.target h.target))
          h.target)
        (record {
          target =
              if_elim (InRange n) (eq_text pg pkg)
                (first_line-InRange (PkgLine.standalone i) s.target lt h.target) h.target;
          waits = tt;
        })
  scan_outer-InRange ls pkg (OuterLine.bare_open owner) s h =
      if_elim (ScanInRange n) (is_empty owner) (open_waiting-InRange ls pkg s.waits s h.waits h) (
        enter-InRange (eq_text owner pkg) _ s
          (first_line-InRange (PkgLine.bare_open i) _ lt (open_target-InRange s.target h.target))
          h.target)
  scan_outer-InRange ls pkg (OuterLine.pending p) s h = record { target = h.target; waits = lt }
  scan_outer-InRange ls pkg OuterLine.junk s h = record { target = h.target; waits = tt }

  scan_line-InRange :
      (ls : List Text) (pkg p : Text) (s : Scan)
      → ScanInRange n s
      → ScanInRange n (scan_line ls pkg i p s)
  unfolding scan_line
  scan_line-InRange ls pkg p s h = if_elim (ScanInRange n) (is_skipped p) h (
      if_elim (ScanInRange n) s.in_block (scan_block-InRange p s h)
        (scan_outer-InRange ls pkg (parse_outer p) s h))

scan_lines-InRange :
    (n : ℕ) (ls : List Text) (pkg : Text) (i : ℕ) (rest : List Text) (s : Scan)
    → i + length rest ≡ n
    → ScanInRange n s
    → ScanInRange n (scan_lines ls pkg i rest s)
unfolding scan_lines
scan_lines-InRange n ls pkg i [] s e h = h
scan_lines-InRange n ls pkg i (raw ∷ rest) s e h =
    scan_lines-InRange n ls pkg (i + 1) rest _ (omega (arith, e))
      (scan_line-InRange n i (omega (arith, e)) ls pkg (trim raw) s h)

-- Every line number that a scan records is the number of a line of the file.
pub target_scan-InRange : (ls : List Text) (pkg : Text) → InRange (length ls) (target_scan ls pkg)
unfolding target_scan
target_scan-InRange ls pkg =
    let h = scan_lines-InRange (length ls) ls pkg 0 ls start (omega arith) (record {
      target = record { line = tt; opened = tt; closed = tt; threads = tt };
      waits = tt;
    }) in
    record {
      line = h.target.line;
      opened = h.target.opened;
      closed = h.target.closed;
      threads = h.target.threads;
    }

-- ===== src/Edit/Outer.antt =====
-- The lines outside of blocks for `target_scan` of AppOpt/src/rule_edit.rs and for `load_config` of
-- AppOpt/src/config.rs: both take the same step.
use app_opt.Base.{
  ℕ, ◌≡◌, ◌≢◌, ◌∙◌, sym, subst, refl, ap, Bool, true, false, ◌&&◌, List, [], ◌∷◌, Option, none,
  some, inl, if◌then◌else◌,
}
use app_opt.Base.Text.{Text, is_empty, eq_text, trim}
use app_opt.Config.Line.{OuterLine, rule, bare_open, pending, single, junk, parse_outer}
use app_opt.Config.Line.Single.{parse_outer-single}
use app_opt.Config.Load.{
  Env, Loader, drop_pending, clear_pending, enter_block, fail, open_block, add_rule, block_line,
  outer_line, load_line, is_skipped,
}
use app_opt.Edit.{PkgLine, Target, line_at}
use app_opt.Edit.Mentions.{any_line-open, any_line-first, any_line-note, any_line-noted}
use app_opt.Edit.Scan.{
  Scan, open_target, first_line, enter, scan_block, note_single, waiting_pkg, is_pkg, open_waiting,
  scan_outer, scan_line,
}
use app_opt.Edit.Track.{
  Waits, Spoken, Tracks, drop_pending-fields, add_rule-fields, add_rule-Spoken, Spoken-grows,
  enter-Tracks, fail-Tracks, scan_block-Tracks,
}

module _ (ls : List Text) (pkg : Text) where
  open_waiting-Tracks :
      (i : ℕ) (w : Option ℕ) (s : Scan) (l : Loader)
      → s.waits ≡ w
      → s.target_block ≡ false
      → Tracks ls pkg s l
      → Tracks ls pkg (open_waiting ls pkg i w s) (open_block l.pending_pkg l)
  open_waiting-Tracks i none s l e out h =
      let none_left = subst (λ w. Waits ls w l.pending_pkg) e h.waits in
      subst (λ p. Tracks ls pkg s (open_block p l)) (sym none_left) (fail-Tracks ls pkg s l h)
  open_waiting-Tracks i (some pi) s l e out h = by_owner l.pending_pkg refl
    where
      waiting : Waits ls (some pi) l.pending_pkg
      waiting = subst (λ w. Waits ls w l.pending_pkg) e h.waits

      by_owner :
          (p : Text)
          → l.pending_pkg ≡ p
          → Tracks ls pkg (open_waiting ls pkg i (some pi) s) (open_block p l)
      by_owner [] f = absurd (waiting.1 f)
      by_owner (c ∷ p) f =
          enter-Tracks ls pkg (is_pkg pkg (waiting_pkg (parse_outer (trim (line_at ls pi))))) _ s
            (c ∷ p) (clear_pending (enter_block (c ∷ p) l))
            (sym (ap (λ o. is_pkg pkg (waiting_pkg o)) (waiting.0 ∙ ap pending f)))
            (λ _. any_line-first (PkgLine.bare_pending pi) (open_target i s.target)) out
            (λ _. h.spoken) refl refl refl

  outside :
      (s : Scan) (l : Loader) → l.in_block ≡ false → Tracks ls pkg s l → s.target_block ≡ false
  outside s l e h = h.owned ∙ ap (λ b. b && eq_text l.cur_pkg pkg) e

  -- Nothing but the rules changes outside of a block.
  stays-Tracks :
      (t : Target) (s : Scan) (l m : Loader)
      → l.in_block ≡ false
      → m.in_block ≡ l.in_block
      → m.pending_pkg ≡ []
      → s.in_block ≡ l.in_block
      → s.target_block ≡ false
      → Spoken pkg t m.rules
      → Tracks ls pkg (record s { target = t; waits = none }) m
  stays-Tracks t s l m out hi hp e et h = record {
    inside = e ∙ sym hi;
    owned = et ∙ sym (ap (λ b. b && eq_text m.cur_pkg pkg) (hi ∙ out));
    waits = hp;
    marked = λ f. absurd (cc (f, et));
    spoken = h;
  }

  dropped-Spoken :
      (t : Target) (l : Loader) → Spoken pkg t l.rules → Spoken pkg t (drop_pending l).rules
  dropped-Spoken t l h = subst (Spoken pkg t) (sym (drop_pending-fields l).1) h

  single-Tracks :
      (env : Env) (i : ℕ) (pg th cpus : Text) (opens : Bool) (s : Scan) (l : Loader)
      → l.in_block ≡ false
      → is_empty th ≡ false
      → Tracks ls pkg s l
      → Tracks ls pkg
          (scan_outer ls pkg i (single pg th cpus opens) s)
          (outer_line env (single pg th cpus opens) l)
  unfolding scan_outer outer_line
  single-Tracks env i pg th cpus opens s l out named h = by_brace opens refl
    where
      base : Loader
      base = clear_pending (drop_pending l)

      noted : Target
      noted = note_single pkg i pg th opens s.target

      spoken : Spoken pkg noted (add_rule env pg th cpus base).rules
      spoken =
          add_rule-Spoken pkg env pg th cpus base noted
            (λ e. any_line-noted pkg i pg th opens s.target e named)
            (Spoken-grows pkg s.target noted base.rules (any_line-note pkg i pg th opens s.target)
              (dropped-Spoken s.target l h.spoken))

      by_brace :
          (b : Bool)
          → opens ≡ b
          → Tracks ls pkg
              (if b
                then enter
                    (eq_text pg pkg)
                    (open_target i noted)
                    (record s { target = noted; waits = none })
                else record s { target = noted; waits = none })
              (if b
                then enter_block pg (add_rule env pg th cpus base)
                else add_rule env pg th cpus base)
      by_brace true e =
          enter-Tracks ls pkg (eq_text pg pkg) (open_target i noted)
            (record s { target = noted; waits = none }) pg
            (enter_block pg (add_rule env pg th cpus base)) refl
            (λ same. any_line-open i noted (any_line-noted pkg i pg th opens s.target same named))
            (outside s l out h) (λ _. spoken) refl refl (add_rule-fields env pg th cpus base).2
      by_brace false e =
          stays-Tracks noted s l (add_rule env pg th cpus base) out
            ((add_rule-fields env pg th cpus base).0 ∙ (drop_pending-fields l).0)
            (add_rule-fields env pg th cpus base).2 h.inside (outside s l out h) spoken

  rule-Tracks :
      (env : Env) (i : ℕ) (pg cpus : Text) (opens : Bool) (s : Scan) (l : Loader)
      → l.in_block ≡ false
      → Tracks ls pkg s l
      → Tracks ls pkg
          (scan_outer ls pkg i (rule pg cpus opens) s)
          (outer_line env (rule pg cpus opens) l)
  unfolding scan_outer outer_line
  rule-Tracks env i pg cpus opens s l out h = by_brace opens
    where
      added : Loader
      added = add_rule env pg [] cpus (drop_pending l)

      standing : Target
      standing = if eq_text pg pkg then first_line (PkgLine.standalone i) s.target else s.target

      opened : Target
      opened = first_line (PkgLine.open_inline i) (open_target i s.target)

      other_spoken : eq_text pg pkg ≡ false → Spoken pkg s.target added.rules
      other_spoken e =
          add_rule-Spoken pkg env pg [] cpus (drop_pending l) s.target (λ f. absurd (cc (e, f)))
            (dropped-Spoken s.target l h.spoken)

      standing-Spoken :
          (b : Bool)
          → eq_text pg pkg ≡ b
          → Spoken pkg
              (if b then first_line (PkgLine.standalone i) s.target else s.target)
              added.rules
      standing-Spoken true e = inl (any_line-first (PkgLine.standalone i) s.target)
      standing-Spoken false e = other_spoken e

      by_brace :
          (b : Bool)
          → Tracks ls pkg
              (if b
                then enter (eq_text pg pkg) opened s
                else record s { target = standing; waits = none })
              (clear_pending (if b then enter_block pg added else added))
      by_brace true =
          enter-Tracks ls pkg (eq_text pg pkg) opened s pg (clear_pending (enter_block pg added))
            refl (λ _. any_line-first (PkgLine.open_inline i) (open_target i s.target))
            (outside s l out h) other_spoken refl refl refl
      by_brace false =
          stays-Tracks standing s l (clear_pending added) out
            ((add_rule-fields env pg [] cpus (drop_pending l)).0 ∙ (drop_pending-fields l).0) refl
            h.inside (outside s l out h) (standing-Spoken (eq_text pg pkg) refl)

  bare_open-Tracks :
      (env : Env) (i : ℕ) (owner : Text) (s : Scan) (l : Loader)
      → l.in_block ≡ false
      → Tracks ls pkg s l
      → Tracks ls pkg (scan_outer ls pkg i (bare_open owner) s) (outer_line env (bare_open owner) l)
  unfolding scan_outer outer_line
  bare_open-Tracks env i [] s l out h = open_waiting-Tracks i s.waits s l refl (outside s l out h) h
  bare_open-Tracks env i (c ∷ owner) s l out h =
      enter-Tracks ls pkg (eq_text (c ∷ owner) pkg) _ s (c ∷ owner)
        (clear_pending (enter_block (c ∷ owner) (drop_pending l))) refl
        (λ _. any_line-first (PkgLine.bare_open i) (open_target i s.target)) (outside s l out h)
        (λ _. dropped-Spoken s.target l h.spoken) refl refl refl

  scan_outer-Tracks :
      (env : Env) (i : ℕ) (p : Text) (o : OuterLine) (s : Scan) (l : Loader)
      → l.in_block ≡ false
      → trim (line_at ls i) ≡ p
      → parse_outer p ≡ o
      → o ≢ pending []
      → Tracks ls pkg s l
      → Tracks ls pkg (scan_outer ls pkg i o s) (outer_line env o l)
  unfolding scan_outer outer_line
  scan_outer-Tracks env i p (single pg th cpus opens) s l out at e named h =
      single-Tracks env i pg th cpus opens s l out (parse_outer-single p e) h
  scan_outer-Tracks env i p (rule pg cpus opens) s l out at e named h =
      rule-Tracks env i pg cpus opens s l out h
  scan_outer-Tracks env i p (bare_open owner) s l out at e named h =
      bare_open-Tracks env i owner s l out h
  scan_outer-Tracks env i p (pending q) s l out at e named h = record {
    inside = h.inside ∙ sym (drop_pending-fields l).0;
    owned =
        outside s l out h
        ∙ sym
            (ap (λ b. b && eq_text (drop_pending l).cur_pkg pkg) ((drop_pending-fields l).0 ∙ out));
    waits = (ap parse_outer at ∙ e, λ f. named (ap pending f));
    marked = h.marked;
    spoken = dropped-Spoken s.target l h.spoken;
  }
  scan_outer-Tracks env i p junk s l out at e named h =
      stays-Tracks s.target s l (clear_pending (fail l)) out refl refl h.inside (outside s l out h)
        h.spoken

  pub scan_line-Tracks :
      (env : Env) (i : ℕ) (p : Text) (s : Scan) (l : Loader)
      → trim (line_at ls i) ≡ p
      → parse_outer p ≢ pending []
      → Tracks ls pkg s l
      → Tracks ls pkg (scan_line ls pkg i p s) (load_line env p l)
  unfolding scan_line load_line
  scan_line-Tracks env i p s l at named h = by_skip (is_skipped p)
    where
      by_block :
          (b : Bool)
          → s.in_block ≡ b
          → l.in_block ≡ b
          → Tracks ls pkg
              (if b then scan_block i p s else scan_outer ls pkg i (parse_outer p) s)
              (if b then block_line env p l else outer_line env (parse_outer p) l)
      by_block true e f = scan_block-Tracks ls pkg env i p s l f h
      by_block false e f = scan_outer-Tracks env i p (parse_outer p) s l f at refl named h

      in_step :
          Tracks ls pkg
            (if s.in_block then scan_block i p s else scan_outer ls pkg i (parse_outer p) s)
            (if l.in_block then block_line env p l else outer_line env (parse_outer p) l)
      in_step =
          subst
            (λ b.
              Tracks ls pkg (if b then scan_block i p s else scan_outer ls pkg i (parse_outer p) s)
                (if l.in_block then block_line env p l else outer_line env (parse_outer p) l))
            (sym h.inside) (by_block l.in_block h.inside refl)

      by_skip :
          (b : Bool)
          → Tracks ls pkg
              (if b
                then s
                else if s.in_block
                then scan_block i p s
                else scan_outer ls pkg i (parse_outer p) s)
              (if b
                then l
                else if l.in_block
                then block_line env p l
                else outer_line env (parse_outer p) l)
      by_skip true = h
      by_skip false = in_step

-- ===== src/Edit/Track.antt =====
-- `target_scan` of AppOpt/src/rule_edit.rs beside `load_config` of AppOpt/src/config.rs: both read the
-- same lines, and here their states are compared.
use app_opt.Base.{
  ℕ, ◌≡◌, ◌≢◌, ◌⊎◌, ◌∙◌, sym, subst, refl, ap, Bool, true, false, not, ◌&&◌, List, [], ◌∷◌, Option,
  none, some, All, All-append, Bool-cases, inl, inr, if_elim, if◌then◌else◌, arith,
}
use app_opt.Base.Text.{Text, is_empty, eq_text, contains_char, trim}
use app_opt.Config.Line.{pending, RuleLine, close_like, split_rule_line, parse_outer}
use app_opt.Config.Load.{
  AffinityRule, Env, make_rule, Loader, push_rule, drop_pending, leave_block, fail, add_rule,
  block_line,
}
use app_opt.Edit.{Target, line_at, any_line}
use app_opt.Edit.Mentions.{any_line-in_target, any_line-leave}
use app_opt.Edit.Scan.{Scan, leave, enter, in_target, scan_rule, scan_block}

-- A rule of another package.
abbrev pub Other : Text → AffinityRule → Type 0
Other pkg r = eq_text r.pkg pkg ≡ false

-- The line that waits is the loader's package that waits.
abbrev pub Waits : List Text → Option ℕ → Text → Type 0
Waits ls none p = p ≡ []
Waits ls (some i) p = parse_outer (trim (line_at ls i)) ≡ pending p × p ≢ []

abbrev pub Spoken : Text → Target → List AffinityRule → Type 0
Spoken pkg t rules = (any_line t ≡ true) ⊎ All (Other pkg) rules

pub record Tracks (ls : List Text) (pkg : Text) (s : Scan) (l : Loader) : Type 0 where
  pub inside : s.in_block ≡ l.in_block
  pub owned : s.target_block ≡ (l.in_block && eq_text l.cur_pkg pkg)
  pub waits : Waits ls s.waits l.pending_pkg
  pub marked : s.target_block ≡ true → any_line s.target ≡ true
  pub spoken : Spoken pkg s.target l.rules

push_rule-fields :
    (r : Option AffinityRule) (l : Loader)
    → ((push_rule r l).in_block ≡ l.in_block)
      × ((push_rule r l).cur_pkg ≡ l.cur_pkg)
      × ((push_rule r l).pending_pkg ≡ l.pending_pkg)
push_rule-fields none l = (refl, refl, refl)
push_rule-fields (some r) l = (refl, refl, refl)

pub drop_pending-fields :
    (l : Loader) → ((drop_pending l).in_block ≡ l.in_block) × ((drop_pending l).rules ≡ l.rules)
drop_pending-fields l =
    if_elim {A = Loader} (λ m. (m.in_block ≡ l.in_block) × (m.rules ≡ l.rules))
      (is_empty l.pending_pkg) (refl, refl) (refl, refl)

make_rule-pkg :
    (env : Env) (pkg thread spec : Text) {r : AffinityRule}
    → make_rule env pkg thread spec ≡ some r
    → r.pkg ≡ pkg
unfolding make_rule
make_rule-pkg env pkg thread spec h = ground arith

module _ (pkg : Text) where
  push_rule-Spoken :
      (r : Option AffinityRule) (l : Loader) (t : Target)
      → ((a : AffinityRule) → r ≡ some a → Spoken pkg t (a ∷ []))
      → Spoken pkg t l.rules
      → Spoken pkg t (push_rule r l).rules
  push_rule-Spoken none l t ha h = h
  push_rule-Spoken (some a) l t ha (inl e) = inl e
  push_rule-Spoken (some a) l t ha (inr o) = elim (ha a refl) [
    | inl e ↦ inl e
    | inr oa ↦ inr (All-append (Other pkg) l.rules (a ∷ []) o oa)
  ]

  -- A rule of the package only comes in where the target has one of its lines.
  pub add_rule-Spoken :
      (env : Env) (pg thread spec : Text) (l : Loader) (t : Target)
      → (eq_text pg pkg ≡ true → any_line t ≡ true)
      → Spoken pkg t l.rules
      → Spoken pkg t (add_rule env pg thread spec l).rules
  unfolding add_rule
  add_rule-Spoken env pg thread spec l t hp h =
      push_rule-Spoken (make_rule env pg thread spec) l t
        (λ a e. elim (Bool-cases (eq_text pg pkg)) [
          | inl same ↦ inl (hp same)
          | inr other ↦
              inr (ap (λ p. eq_text p pkg) (make_rule-pkg env pg thread spec e) ∙ other, tt)
        ])
        h

  pub Spoken-grows :
      (t u : Target) (rules : List AffinityRule)
      → (any_line t ≡ true → any_line u ≡ true)
      → Spoken pkg t rules
      → Spoken pkg u rules
  Spoken-grows t u rules f (inl e) = inl (f e)
  Spoken-grows t u rules f (inr o) = inr o

pub add_rule-fields :
    (env : Env) (pg thread spec : Text) (l : Loader)
    → ((add_rule env pg thread spec l).in_block ≡ l.in_block)
      × ((add_rule env pg thread spec l).cur_pkg ≡ l.cur_pkg)
      × ((add_rule env pg thread spec l).pending_pkg ≡ l.pending_pkg)
unfolding add_rule
add_rule-fields env pg thread spec l = push_rule-fields (make_rule env pg thread spec) l

module _ (ls : List Text) (pkg : Text) where
  -- Both leave their block.
  leave-Tracks :
      (i : ℕ) (s : Scan) (l m : Loader)
      → Waits ls s.waits l.pending_pkg
      → m.pending_pkg ≡ l.pending_pkg
      → Spoken pkg s.target m.rules
      → Tracks ls pkg (leave i s) (leave_block m)
  leave-Tracks i s l m w e h = record {
    inside = refl;
    owned = refl;
    waits = subst (Waits ls s.waits) (sym e) w;
    marked = λ f. absurd (cc f);
    spoken = Spoken-grows pkg s.target (leave i s).target m.rules (any_line-leave i s) h;
  }

  -- Both enter a block of the package `pg`.
  pub enter-Tracks :
      (b : Bool) (t : Target) (s : Scan) (pg : Text) (m : Loader)
      → eq_text pg pkg ≡ b
      → (b ≡ true → any_line t ≡ true)
      → s.target_block ≡ false
      → (b ≡ false → Spoken pkg s.target m.rules)
      → m.in_block ≡ true
      → m.cur_pkg ≡ pg
      → m.pending_pkg ≡ []
      → Tracks ls pkg (enter b t s) m
  enter-Tracks true t s pg m e ht out h hi hc hp = record {
    inside = sym hi;
    owned = rw hi (rw hc (sym e));
    waits = hp;
    marked = λ _. ht refl;
    spoken = inl (ht refl);
  }
  enter-Tracks false t s pg m e ht out h hi hc hp = record {
    inside = sym hi;
    owned = rw hi (rw hc (out ∙ sym e));
    waits = hp;
    marked = λ f. absurd (cc (f, out));
    spoken = h refl;
  }

in_target-fields :
    (i : ℕ) (r : RuleLine) (s : Scan)
    → ((in_target i r s).in_block ≡ s.in_block)
      × ((in_target i r s).target_block ≡ s.target_block)
      × ((in_target i r s).waits ≡ s.waits)
in_target-fields i r s =
    if_elim {A = Scan}
      (λ u. (u.in_block ≡ s.in_block) × (u.target_block ≡ s.target_block) × (u.waits ≡ s.waits))
      (s.target_block && not (is_empty r.name)) (refl, refl, refl) (refl, refl, refl)

and_left : (b c : Bool) → b ≡ true → c ≡ true → (b && c) ≡ true
and_left true true e f = refl
and_left false c e f = e
and_left true false e f = f

module _ (ls : List Text) (pkg : Text) where
  in_target-Tracks :
      (env : Env) (i : ℕ) (r : RuleLine) (s : Scan) (l : Loader)
      → l.in_block ≡ true
      → Tracks ls pkg s l
      → Tracks ls pkg (in_target i r s) (add_rule env l.cur_pkg r.name r.cpus l)
  in_target-Tracks env i r s l hi h =
      let f = in_target-fields i r s in
      let g = add_rule-fields env l.cur_pkg r.name r.cpus l in
      record {
        inside = f.0 ∙ h.inside ∙ sym g.0;
        owned =
            f.1
            ∙ h.owned
            ∙ sym (
                ap (λ b. b && eq_text (add_rule env l.cur_pkg r.name r.cpus l).cur_pkg pkg) g.0
                ∙ ap (λ c. l.in_block && eq_text c pkg) g.1);
        waits =
            subst (λ w. Waits ls w (add_rule env l.cur_pkg r.name r.cpus l).pending_pkg) (sym f.2)
              (subst (Waits ls s.waits) (sym g.2) h.waits);
        marked = λ e. any_line-in_target i r s (h.marked (sym f.1 ∙ e));
        spoken =
            add_rule-Spoken pkg env l.cur_pkg r.name r.cpus l (in_target i r s).target
              (λ e. any_line-in_target i r s (h.marked (h.owned ∙ and_left _ _ hi e)))
              (Spoken-grows pkg s.target (in_target i r s).target l.rules (any_line-in_target i r s)
                h.spoken);
      }

  pub fail-Tracks : (s : Scan) (l : Loader) → Tracks ls pkg s l → Tracks ls pkg s (fail l)
  fail-Tracks s l h = record {
    inside = h.inside;
    owned = h.owned;
    waits = h.waits;
    marked = h.marked;
    spoken = h.spoken;
  }

  left-Tracks :
      (i : ℕ) (s : Scan) (l : Loader)
      → Tracks ls pkg s l
      → Tracks ls pkg (leave i s) (leave_block l)
  left-Tracks i s l h = leave-Tracks ls pkg i s l l h.waits refl h.spoken

  scan_rule-Tracks :
      (env : Env) (i : ℕ) (p : Text) (o : Option RuleLine) (s : Scan) (l : Loader)
      → l.in_block ≡ true
      → Tracks ls pkg s l
      → split_rule_line p ≡ o
      → close_like p ≡ false
      → Tracks ls pkg (scan_rule i p o s) (block_line env p l)
  unfolding block_line
  scan_rule-Tracks env i p (some r) s l hi h e f = rw f (rw e (by_closed r.closed refl))
    where
      by_closed :
          (b : Bool)
          → r.closed ≡ b
          → Tracks ls pkg (if b then leave i (in_target i r s) else in_target i r s) (
              if b
              then leave_block (add_rule env l.cur_pkg r.name r.cpus l)
              else add_rule env l.cur_pkg r.name r.cpus l)
      by_closed true c = left-Tracks i _ _ (in_target-Tracks env i r s l hi h)
      by_closed false c = in_target-Tracks env i r s l hi h
  scan_rule-Tracks env i p none s l hi h e f = rw f (rw e (by_brace (contains_char b'}' p)))
    where
      by_brace :
          (b : Bool)
          → Tracks ls pkg (if b then leave i s else s) (if b then leave_block (fail l) else fail l)
      by_brace true = left-Tracks i s (fail l) (fail-Tracks s l h)
      by_brace false = fail-Tracks s l h

  pub scan_block-Tracks :
      (env : Env) (i : ℕ) (p : Text) (s : Scan) (l : Loader)
      → l.in_block ≡ true
      → Tracks ls pkg s l
      → Tracks ls pkg (scan_block i p s) (block_line env p l)
  unfolding scan_block
  scan_block-Tracks env i p s l hi h = elim (Bool-cases (close_like p)) [
    | inl e ↦ rw e (unfold block_line in rw e (left-Tracks i s l h))
    | inr e ↦ rw e (scan_rule-Tracks env i p (split_rule_line p) s l hi h refl e)
  ]

-- ===== src/Config/Load/Blocks.antt =====
-- The loader's block state from line to line.
use app_opt.Base.{
  Bool, true, false, List, [], ◌∷◌, Option, none, some, ◌≡◌, refl, Option-cases, inl, inr, if_elim,
  if◌then◌else◌,
}
use app_opt.Base.Text.{Text, is_empty, contains_char, trim, lines}
use app_opt.Config.Line.{
  OuterLine, rule, bare_open, pending, single, junk, parse_outer, close_like, split_rule_line,
}
use app_opt.Config.Load.{
  AffinityRule, Env, make_rule, Loader, initial, push_rule, drop_pending, clear_pending,
  enter_block, leave_block, fail, open_block, add_rule, block_line, outer_line, load_line,
  load_lines, is_skipped,
}

-- Outside a block no package is current, and inside one no package waits for its block.
pub record IsSettled (l : Loader) : Type 0 where
  pub closed : l.in_block ≡ false → l.cur_pkg ≡ []
  pub opened : l.in_block ≡ true → l.pending_pkg ≡ []

push_rule-IsSettled :
    (r : Option AffinityRule) (l : Loader) → IsSettled l → IsSettled (push_rule r l)
push_rule-IsSettled none l h = record { closed = h.closed; opened = h.opened }
push_rule-IsSettled (some r) l h = record { closed = h.closed; opened = h.opened }

push_rule-pending :
    (r : Option AffinityRule) (l : Loader) → (push_rule r l).pending_pkg ≡ l.pending_pkg
push_rule-pending none l = refl
push_rule-pending (some r) l = refl

drop_pending-IsSettled : (l : Loader) → IsSettled l → IsSettled (drop_pending l)
drop_pending-IsSettled l h =
    if_elim IsSettled (is_empty l.pending_pkg) h (record { closed = h.closed; opened = h.opened })

clear_pending-IsSettled : (l : Loader) → IsSettled l → IsSettled (clear_pending l)
clear_pending-IsSettled l h = record { closed = h.closed; opened = λ _. refl }

leave_block-IsSettled : (l : Loader) → IsSettled (leave_block l)
leave_block-IsSettled l = record { closed = λ _. refl; opened = λ e. absurd (cc e) }

fail-IsSettled : (l : Loader) → IsSettled l → IsSettled (fail l)
fail-IsSettled l h = record { closed = h.closed; opened = h.opened }

enter_block-IsSettled :
    (pkg : Text) (l : Loader) → l.pending_pkg ≡ [] → IsSettled (enter_block pkg l)
enter_block-IsSettled pkg l h = record { closed = λ e. absurd (cc e); opened = λ _. h }

block_line-IsSettled :
    (env : Env) (p : Text) (l : Loader) → IsSettled l → IsSettled (block_line env p l)
unfolding block_line add_rule
block_line-IsSettled env p l h =
    if_elim IsSettled (close_like p) (leave_block-IsSettled l)
      (elim (Option-cases (split_rule_line p)) [
        | inr (r, e) ↦ rw e (
            if_elim IsSettled r.closed
              (leave_block-IsSettled (push_rule (make_rule env l.cur_pkg r.name r.cpus) l))
              (push_rule-IsSettled (make_rule env l.cur_pkg r.name r.cpus) l h))
        | inl e ↦ rw e (
            if_elim IsSettled (contains_char b'}' p) (leave_block-IsSettled (fail l))
              (fail-IsSettled l h))
      ])

open_block-IsSettled : (owner : Text) (l : Loader) → IsSettled l → IsSettled (open_block owner l)
open_block-IsSettled owner l h =
    if_elim IsSettled (is_empty owner) (fail-IsSettled l h)
      (record { closed = λ e. absurd (cc e); opened = λ _. refl })

outer_line-IsSettled :
    (env : Env) (o : OuterLine) (l : Loader)
    → l.in_block ≡ false
    → IsSettled l
    → IsSettled (outer_line env o l)
unfolding outer_line add_rule
outer_line-IsSettled env (single pkg thread cpus flag) l out h =
    let cleared = clear_pending (drop_pending l) in
    if_elim IsSettled flag
      (enter_block-IsSettled pkg (push_rule (make_rule env pkg thread cpus) cleared)
        (push_rule-pending (make_rule env pkg thread cpus) cleared))
      (push_rule-IsSettled _ _ (clear_pending-IsSettled _ (drop_pending-IsSettled l h)))
outer_line-IsSettled env (rule pkg cpus flag) l out h =
    let added = push_rule (make_rule env pkg [] cpus) (drop_pending l) in
    if_elim {A = Loader} (λ t. IsSettled (clear_pending t)) flag
      (record { closed = λ e. absurd (cc e); opened = λ _. refl })
      (clear_pending-IsSettled added (push_rule-IsSettled _ _ (drop_pending-IsSettled l h)))
outer_line-IsSettled env (bare_open pkg) l out h =
    if_elim IsSettled (is_empty pkg) (open_block-IsSettled l.pending_pkg l h)
      (open_block-IsSettled pkg _ (drop_pending-IsSettled l h))
outer_line-IsSettled env (pending pkg) l out h =
    if_elim {A = Loader} (λ t. IsSettled (record t { pending_pkg = pkg })) (is_empty l.pending_pkg)
      (record { closed = h.closed; opened = λ e. absurd (cc (e, out)) })
      (record { closed = h.closed; opened = λ e. absurd (cc (e, out)) })
outer_line-IsSettled env junk l out h = clear_pending-IsSettled _ (fail-IsSettled l h)

load_line-IsSettled :
    (env : Env) (p : Text) (l : Loader) → IsSettled l → IsSettled (load_line env p l)
unfolding load_line
load_line-IsSettled env p l h = if_elim IsSettled (is_skipped p) h (by_block l.in_block refl)
  where
    by_block :
        (b : Bool)
        → l.in_block ≡ b
        → IsSettled (if b then block_line env p l else outer_line env (parse_outer p) l)
    by_block true inside = block_line-IsSettled env p l h
    by_block false outside = outer_line-IsSettled env (parse_outer p) l outside h

load_lines-IsSettled :
    (env : Env) (ls : List Text) (l : Loader) → IsSettled l → IsSettled (load_lines env ls l)
unfolding load_lines
load_lines-IsSettled env [] l h = h
load_lines-IsSettled env (line ∷ ls) l h =
    load_lines-IsSettled env ls (load_line env (trim line) l)
      (load_line-IsSettled env (trim line) l h)

settled : (l : Loader) → IsSettled l → (if l.in_block then l.pending_pkg else l.cur_pkg) ≡ []
settled l h = by_block l.in_block refl
  where
    by_block : (b : Bool) → l.in_block ≡ b → (if b then l.pending_pkg else l.cur_pkg) ≡ []
    by_block true inside = h.opened inside
    by_block false outside = h.closed outside

-- After any lines from the start of a file, no package waits for its block inside a block, and no
-- package is current outside one.
pub load_lines-settled :
    (env : Env) (content : Text)
    → (let l = load_lines env (lines content) initial in
        (if l.in_block then l.pending_pkg else l.cur_pkg) ≡ [])
load_lines-settled env content = settled (load_lines env (lines content) initial) (
    load_lines-IsSettled env (lines content) initial
      (record { closed = λ _. refl; opened = λ e. absurd (cc e) }))

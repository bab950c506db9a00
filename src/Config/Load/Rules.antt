-- ===== src/Config/Load/Rules.antt =====
-- The rules that the loader accepts, and the sets of packages that it derives from them.
use app_opt.Base.{
  ℕ, ◌<◌, true, false, not, ◌&&◌, ◌||◌, List, [], ◌∷◌, ◌++◌, Option, none, some, any, All,
  All-append, ◌≡◌, ◌≢◌, refl, sym, subst, arith, Option-cases, inl, inr, if_elim, ◌==◌,
}
use app_opt.Base.Dict.{text_eq}
use app_opt.Base.Text.{Text, is_empty, contains_char, byte_len, lines, trim}
use app_opt.Config.Line.{
  OuterLine, rule, bare_open, pending, single, junk, parse_outer, close_like, split_rule_line,
}
use app_opt.Config.Load.{
  AffinityRule, AppConfig, Env, is_control, c_string, make_rule, Loader, initial, finish, push_rule,
  drop_pending, open_block, rule_dir, add_rule, block_line, outer_line, load_line, load_lines,
  is_skipped, config_of, ConfigFile, Loaded, load_content, load_config, no_mtime, max_pkg_len,
  max_thread_len,
}
use app_opt.Cpu.Set.{count}
use app_opt.Cpu.Set.Laws.{IsValid}
use app_opt.Cpu.Spec.{parse_cpu_spec}
use app_opt.Cpu.Spec.Laws.{TopologyValid, parse_cpu_spec-IsValid}

-- A rule with a name and a non-empty set of CPUs, within the length limits, without control
-- characters, whose pattern is the whole thread name.
pub record IsRule (r : AffinityRule) : Type 0 where
  pub pkg-ne-nil : r.pkg ≢ []
  pub pkg_short : byte_len r.pkg < max_pkg_len
  pub thread_short : byte_len r.thread < max_thread_len
  pub no_control : any is_control (r.pkg ++ r.thread) ≡ false
  pub pattern : r.thread_pattern ≡ r.thread
  pub some_cpu : 0 < count r.cpus
  pub cpus_valid : IsValid r.cpus

any-append-false : (s t : Text) → any is_control (s ++ t) ≡ false → any is_control t ≡ false
any-append-false [] t h = h
any-append-false (c ∷ s) t h = any-append-false s t (ground arith)

no_nul : (t : Text) → any is_control t ≡ false → contains_char 0 t ≡ false
unfolding contains_char
no_nul [] h = refl
no_nul (c ∷ t) h = ground (arith, no_nul t)

not_empty : (t : Text) → is_empty t ≡ false → t ≢ []
not_empty [] h = cc
not_empty (c ∷ t) h = cc

-- The rule that the arguments of `add_rule` describe.
abbrev pub described : Env → Text → Text → Text → AffinityRule
described env pkg thread spec = record {
  pkg = pkg;
  thread = thread;
  thread_pattern = c_string thread;
  cpuset_dir = rule_dir env thread (parse_cpu_spec spec env.topo);
  cpus = parse_cpu_spec spec env.topo;
}

make_rule_checks :
    (env : Env) (pkg thread spec : Text) {r : AffinityRule}
    → make_rule env pkg thread spec ≡ some r
    → (is_empty pkg ≡ false)
      × (byte_len pkg < max_pkg_len)
      × (byte_len thread < max_thread_len)
      × (any is_control (pkg ++ thread) ≡ false)
      × (0 < count (parse_cpu_spec spec env.topo))
      × (r ≡ described env pkg thread spec)
unfolding make_rule
make_rule_checks env pkg thread spec h = ground arith

pub make_rule-IsRule :
    (env : Env) (pkg thread spec : Text) {r : AffinityRule}
    → TopologyValid env.topo
    → make_rule env pkg thread spec ≡ some r
    → IsRule r
unfolding make_rule
make_rule-IsRule env pkg thread spec {r} t h =
    let cpus = parse_cpu_spec spec env.topo in
    let checked = make_rule_checks env pkg thread spec h in
    let (named, short, thin, plain, some_cpu, is) = checked in
    subst IsRule (sym is) (record {
      pkg-ne-nil = not_empty pkg named;
      pkg_short = short;
      thread_short = thin;
      no_control = plain;
      pattern = rw (no_nul thread (any-append-false pkg thread plain)) refl;
      some_cpu = some_cpu;
      cpus_valid = parse_cpu_spec-IsValid spec env.topo t;
    })

abbrev Good : Loader → Type 0
Good l = All IsRule l.rules

push_rule-Good :
    (o : Option AffinityRule) (l : Loader)
    → ((r : AffinityRule) → o ≡ some r → IsRule r)
    → Good l
    → Good (push_rule o l)
push_rule-Good none l h g = g
push_rule-Good (some r) l h g = All-append IsRule l.rules (r ∷ []) g (h r refl, tt)

add_rule-Good :
    (env : Env) (pkg thread spec : Text) (l : Loader)
    → TopologyValid env.topo
    → Good l
    → Good (add_rule env pkg thread spec l)
unfolding add_rule
add_rule-Good env pkg thread spec l t =
    push_rule-Good (make_rule env pkg thread spec) l
      (λ r e. make_rule-IsRule env pkg thread spec t e)

block_line-Good :
    (env : Env) (p : Text) (l : Loader)
    → TopologyValid env.topo
    → Good l
    → Good (block_line env p l)
unfolding block_line
block_line-Good env p l t g =
    if_elim Good (close_like p) g (elim (Option-cases (split_rule_line p)) [
      | inl e ↦ rw e (if_elim Good (contains_char b'}' p) g g)
      | inr (r, e) ↦
          let added = add_rule-Good env l.cur_pkg r.name r.cpus l t g in
          rw e (if_elim Good r.closed added added)
    ])

drop_pending-Good : (l : Loader) → Good l → Good (drop_pending l)
drop_pending-Good l g = if_elim Good (is_empty l.pending_pkg) g g

open_block-Good : (owner : Text) (l : Loader) → Good l → Good (open_block owner l)
open_block-Good owner l g = if_elim Good (is_empty owner) g g

outer_line-Good :
    (env : Env) (o : OuterLine) (l : Loader)
    → TopologyValid env.topo
    → Good l
    → Good (outer_line env o l)
unfolding outer_line
outer_line-Good env (single pkg thread cpus true) l t g =
    add_rule-Good env pkg thread cpus _ t (drop_pending-Good l g)
outer_line-Good env (single pkg thread cpus false) l t g =
    add_rule-Good env pkg thread cpus _ t (drop_pending-Good l g)
outer_line-Good env (rule pkg cpus true) l t g =
    add_rule-Good env pkg [] cpus _ t (drop_pending-Good l g)
outer_line-Good env (rule pkg cpus false) l t g =
    add_rule-Good env pkg [] cpus _ t (drop_pending-Good l g)
outer_line-Good env (bare_open pkg) l t g =
    if_elim Good (is_empty pkg) (open_block-Good l.pending_pkg l g)
      (open_block-Good pkg (drop_pending l) (drop_pending-Good l g))
outer_line-Good env (pending pkg) l t g = drop_pending-Good l g
outer_line-Good env junk l t g = g

load_line-Good :
    (env : Env) (p : Text) (l : Loader) → TopologyValid env.topo → Good l → Good (load_line env p l)
unfolding load_line
load_line-Good env p l t g = if_elim Good (is_skipped p) g (
    if_elim Good l.in_block (block_line-Good env p l t g)
      (outer_line-Good env (parse_outer p) l t g))

pub load_lines-Good :
    (env : Env) (ls : List Text) (l : Loader)
    → TopologyValid env.topo
    → All IsRule l.rules
    → All IsRule (load_lines env ls l).rules
unfolding load_lines
load_lines-Good env [] l t g = g
load_lines-Good env (line ∷ ls) l t g =
    load_lines-Good env ls _ t (load_line-Good env (trim line) l t g)

finish-Good : (l : Loader) → Good l → Good (finish l)
finish-Good l g = if_elim Good (l.in_block || not (is_empty l.pending_pkg)) g g

abbrev rules_of : Option AppConfig → List AffinityRule
rules_of none = []
rules_of (some cfg) = cfg.rules

abbrev GoodLoaded : Loaded → Type 0
GoodLoaded l = All IsRule (rules_of l.config)

load_content-IsRule :
    (env : Env) (mtime : ℕ) (content : Text)
    → TopologyValid env.topo
    → GoodLoaded (load_content env mtime content)
unfolding load_content
load_content-IsRule env mtime content t =
    unfold config_of in
    finish-Good (load_lines env (lines content) initial)
      (load_lines-Good env (lines content) initial t tt)

-- Every rule of a configuration that is loaded, from any file and over a valid topology, has a
-- package name, is within the length limits, has no control character, matches by its whole thread
-- name and has at least one CPU.
pub load_config-IsRule :
    (env : Env) (file : ConfigFile) (last_mtime parse_fails : ℕ) {cfg : AppConfig}
    → TopologyValid env.topo
    → (load_config env file last_mtime parse_fails).config ≡ some cfg
    → All IsRule cfg.rules
unfolding load_config
load_config-IsRule env file last_mtime parse_fails t h =
    subst (λ o. All IsRule (rules_of o)) h
      (elim (Option-cases file.mtime) [
        | inl e ↦ rw e tt
        | inr (m, e) ↦ rw e (
            if_elim GoodLoaded (last_mtime == m && not (last_mtime == no_mtime)) tt
              (elim (Option-cases file.content) [
                | inl f ↦ rw f tt
                | inr (c, f) ↦ rw f (load_content-IsRule env m c t)
              ]))
      ])

-- ===== src/Match.antt =====
-- AppOpt/src/rule_match.rs: which CPUs a thread gets, and which package a kernel name means.
-- `fnmatch` of libc is an argument.
pub mod Threads
use app_opt.Base.{
  Bool, true, false, not, ◌&&◌, ◌||◌, List, [], ◌∷◌, Option, none, some, leb, ◌==◌, if◌then◌else◌,
}
use app_opt.Base.Dict.{contains, text_eq}
use app_opt.Base.Text.{Text, is_empty, eq_text, byte_len, starts_with, ends_with, strip_prefix}
use app_opt.Config.Load.{AffinityRule, AppConfig, Env, max_thread_len}
use app_opt.Cpu.Dirs.{ensure_cpuset_dir}
use app_opt.Cpu.Set.{CpuSet, new, or, count}

pub record AffinityResult : Type 0 where
  pub cpus : CpuSet
  pub cpuset_dir : Text
  pub is_thread_rule : Bool

-- A pattern, a text, and whether `fnmatch` returns 0 with FNM_NOESCAPE.
abbrev pub Fnmatch : Type 0
Fnmatch = Text → Text → Bool

-- A C text ends at its first NUL.
unfoldable pub until_nul : Text → Text
until_nul [] = []
until_nul (c ∷ s) = if c == 0 then [] else c ∷ until_nul s

unfoldable pub fnmatch_c : Fnmatch → Text → Text → Bool
fnmatch_c fnmatch pattern string =
    if leb max_thread_len (byte_len string) then false else fnmatch pattern (until_nul string)

pub record Matched : Type 0 where
  pub cpus : CpuSet
  pub matched : Bool

abbrev pub skips_thread : Text → AffinityRule → Bool
skips_thread pkg r = not (eq_text r.pkg pkg) || is_empty r.thread

abbrev pub add_match : AffinityRule → Matched → Matched
add_match r m = record { cpus = or m.cpus r.cpus; matched = true }

-- The first loop of `thread_affinity`.
unfoldable pub thread_loop : Fnmatch → Text → Text → List AffinityRule → Matched → Matched
thread_loop fnmatch pkg thread [] m = m
thread_loop fnmatch pkg thread (r ∷ rs) m = thread_loop fnmatch pkg thread rs (
    if skips_thread pkg r
    then m
    else if fnmatch_c fnmatch r.thread_pattern thread
    then add_match r m
    else m)

pub record Fallback : Type 0 where
  pub cpus : CpuSet
  pub cpuset_dir : Text
  pub seen : Bool

abbrev pub skips_pkg : Text → AffinityRule → Bool
skips_pkg pkg r = not (eq_text r.pkg pkg) || not (is_empty r.thread)

-- The directory of a single rule is kept; a second rule clears it.
abbrev pub add_fallback : AffinityRule → Fallback → Fallback
add_fallback r f = record {
  cpus = or f.cpus r.cpus;
  cpuset_dir = if f.seen then [] else r.cpuset_dir;
  seen = true;
}

-- The second loop of `thread_affinity`.
unfoldable pub fallback_loop : Text → List AffinityRule → Fallback → Fallback
fallback_loop pkg [] f = f
fallback_loop pkg (r ∷ rs) f =
    fallback_loop pkg rs (if skips_pkg pkg r then f else add_fallback r f)

-- The end of `thread_affinity`: no CPU at all is a package with thread rules only, or no result.
unfoldable pub affinity_result : AppConfig → Text → CpuSet → Text → Bool → Option AffinityResult
affinity_result cfg pkg cpus cpuset_dir matched =
    if count cpus == 0
    then (if contains pkg cfg.has_thread_rules
        then some (record { cpus = cfg.topo.present_cpus; cpuset_dir = []; is_thread_rule = false })
        else none)
    else some (record { cpus = cpus; cpuset_dir = cpuset_dir; is_thread_rule = matched })

abbrev pub no_match : Matched
no_match = record { cpus = new; matched = false }

abbrev pub match_thread : Fnmatch → Text → Text → AppConfig → Matched
match_thread fnmatch pkg thread cfg =
    if is_empty thread then no_match else thread_loop fnmatch pkg thread cfg.rules no_match

abbrev pub fall_back : Text → AppConfig → CpuSet → Fallback
fall_back pkg cfg cpus =
    fallback_loop pkg cfg.rules (record { cpus = cpus; cpuset_dir = []; seen = false })

unfoldable pub thread_affinity : Fnmatch → Env → Text → Text → AppConfig → Option AffinityResult
thread_affinity fnmatch env pkg thread cfg =
    let m = match_thread fnmatch pkg thread cfg in
    let f = fall_back pkg cfg m.cpus in
    if m.matched
    then affinity_result cfg pkg m.cpus (ensure_cpuset_dir env.sys env.base m.cpus cfg.topo) true
    else affinity_result cfg pkg f.cpus f.cpuset_dir false

-- The first package, in the order of the set, that a test accepts.
unfoldable pub find_pkg : (Text → Bool) → List Text → Option Text
find_pkg test [] = none
find_pkg test (p ∷ ps) = if test p then some p else find_pkg test ps

unfoldable pub comm_to_pkg : Text → List Text → Option Text
unfolding find_pkg
comm_to_pkg comm pkgs =
    if contains comm pkgs
    then some comm
    else if leb 15 (byte_len comm)
    then elim (find_pkg (λ p. starts_with comm p) pkgs) [
      | some p ↦ some p
      | none ↦ find_pkg (λ p. ends_with comm p) pkgs
    ]
    else none

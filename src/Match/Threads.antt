-- ===== src/Match/Threads.antt =====
-- What `thread_affinity` returns: the union of the matching thread rules before the union of the
-- package's rules.
use app_opt.Base.{
  ℕ, ◌<◌, Bool, true, false, not, ◌&&◌, ◌||◌, List, [], ◌∷◌, none, some, any, All, ◌≡◌, ◌≢◌, refl,
  ap, ◌∙◌, arith, Bool-cases, inl, inr, if◌then◌else◌,
}
use app_opt.Base.Dict.{contains, text_eq}
use app_opt.Base.Text.{Text, is_empty}
use app_opt.Config.Load.{AffinityRule, AppConfig, Env}
use app_opt.Config.Load.Rules.{IsRule}
use app_opt.Cpu.Dirs.{ensure_cpuset_dir}
use app_opt.Cpu.Set.{CpuSet, new, count, count_ones, is_set}
use app_opt.Cpu.Set.Count.{is_set-count, count-is_set}
use app_opt.Cpu.Set.Laws.{IsValid, new-IsValid, or-IsValid, is_set-new, is_set-or}
use app_opt.Match.{
  Fnmatch, fnmatch_c, Matched, Fallback, thread_loop, fallback_loop, affinity_result,
  thread_affinity, no_match, match_thread, fall_back, skips_thread, skips_pkg, add_match,
  add_fallback,
}

-- A rule of the package that names a thread, and whose pattern fits.
abbrev pub thread_match : Fnmatch → Text → Text → AffinityRule → Bool
thread_match fnmatch pkg thread r =
    not (skips_thread pkg r) && fnmatch_c fnmatch r.thread_pattern thread

abbrev pub pkg_match : Text → AffinityRule → Bool
pkg_match pkg r = not (skips_pkg pkg r)

module _ (fnmatch : Fnmatch) (pkg thread : Text) where
  thread_loop-cons :
      (r : AffinityRule) (rs : List AffinityRule) (m : Matched)
      → thread_loop fnmatch pkg thread (r ∷ rs) m
        ≡ thread_loop fnmatch pkg thread rs
            (if thread_match fnmatch pkg thread r then add_match r m else m)
  unfolding thread_loop
  thread_loop-cons r rs m = ap (thread_loop fnmatch pkg thread rs) (ground arith)

  thread_loop-is_set :
      (rs : List AffinityRule) (m : Matched) (j : ℕ)
      → All IsRule rs
      → IsValid m.cpus
      → IsValid (thread_loop fnmatch pkg thread rs m).cpus
        × (is_set (thread_loop fnmatch pkg thread rs m).cpus j ≡ (
            is_set m.cpus j || any (λ r. thread_match fnmatch pkg thread r && is_set r.cpus j) rs))
        × ((thread_loop fnmatch pkg thread rs m).matched
            ≡ (m.matched || any (thread_match fnmatch pkg thread) rs))
  thread_loop-is_set [] m j rules v = unfold thread_loop in (v, ground arith, ground arith)
  thread_loop-is_set (r ∷ rs) m j rules v = elim (Bool-cases (thread_match fnmatch pkg thread r)) [
    | inl fits ↦
        let rest =
          thread_loop-is_set rs (add_match r m) j rules.1
            (or-IsValid m.cpus r.cpus v rules.0.cpus_valid) in
        rw (thread_loop-cons r rs m, fits)
          (
            rest.0,
            rest.1 ∙ rw (is_set-or m.cpus r.cpus j v rules.0.cpus_valid) (ground arith),
            rest.2 ∙ ground arith,
          )
    | inr other ↦
        let rest = thread_loop-is_set rs m j rules.1 v in rw (thread_loop-cons r rs m, other) rest
  ]

module _ (pkg : Text) where
  fallback_loop-cons :
      (r : AffinityRule) (rs : List AffinityRule) (f : Fallback)
      → fallback_loop pkg (r ∷ rs) f
        ≡ fallback_loop pkg rs (if pkg_match pkg r then add_fallback r f else f)
  unfolding fallback_loop
  fallback_loop-cons r rs f = ap (fallback_loop pkg rs) (ground arith)

  fallback_loop-is_set :
      (rs : List AffinityRule) (f : Fallback) (j : ℕ)
      → All IsRule rs
      → IsValid f.cpus
      → IsValid (fallback_loop pkg rs f).cpus
        × (is_set (fallback_loop pkg rs f).cpus j
            ≡ (is_set f.cpus j || any (λ r. pkg_match pkg r && is_set r.cpus j) rs))
  fallback_loop-is_set [] f j rules v = unfold fallback_loop in (v, ground arith)
  fallback_loop-is_set (r ∷ rs) f j rules v = elim (Bool-cases (pkg_match pkg r)) [
    | inl fits ↦
        let rest =
          fallback_loop-is_set rs (add_fallback r f) j rules.1
            (or-IsValid f.cpus r.cpus v rules.0.cpus_valid) in
        rw (fallback_loop-cons r rs f, fits)
          (rest.0, rest.1 ∙ rw (is_set-or f.cpus r.cpus j v rules.0.cpus_valid) (ground arith))
    | inr other ↦
        let rest = fallback_loop-is_set rs f j rules.1 v in
        rw (fallback_loop-cons r rs f, other) rest
  ]

-- A rule of the list that a test accepts gives one of its CPUs to the union.
any_cpu :
    (test : AffinityRule → Bool) (rs : List AffinityRule)
    → All IsRule rs
    → any test rs ≡ true
    → (j : ℕ) × (any (λ r. test r && is_set r.cpus j) rs ≡ true)
any_cpu test [] rules h = cc
any_cpu test (r ∷ rs) rules h = elim (Bool-cases (test r)) [
  | inl fits ↦
      let (j, member) = count-is_set r.cpus rules.0.cpus_valid rules.0.some_cpu in
      (j, rw (fits, member) refl)
  | inr other ↦ let (j, rest) = any_cpu test rs rules.1 (ground arith) in (j, rw (other, rest) refl)
]

affinity_result-some :
    (cfg : AppConfig) (pkg : Text) (cpus : CpuSet) (dir : Text) (flag : Bool)
    → 0 < count cpus
    → affinity_result cfg pkg cpus dir flag
      ≡ some (record { cpus = cpus; cpuset_dir = dir; is_thread_rule = flag })
unfolding affinity_result
affinity_result-some cfg pkg cpus dir flag h = ground arith

-- When every rule is well formed, the thread has a name and some thread rule of the package matches
-- it, the result is exactly the union of the matching thread rules, in the directory for that union,
-- marked as a thread rule.
pub thread_affinity-thread :
    (fnmatch : Fnmatch) (env : Env) (pkg thread : Text) (cfg : AppConfig)
    → All IsRule cfg.rules
    → thread ≢ []
    → any (thread_match fnmatch pkg thread) cfg.rules ≡ true
    → (cpus : CpuSet) × (thread_affinity fnmatch env pkg thread cfg
        ≡ some (record {
          cpus = cpus;
          cpuset_dir = ensure_cpuset_dir env.sys env.base cpus cfg.topo;
          is_thread_rule = true;
        }))
      × ((j : ℕ)
          → is_set cpus j
            ≡ any (λ r. thread_match fnmatch pkg thread r && is_set r.cpus j) cfg.rules)
unfolding thread_affinity
thread_affinity-thread fnmatch env pkg [] cfg rules named h = absurd (named refl)
thread_affinity-thread fnmatch env pkg (c ∷ t) cfg rules named h =
    let m = thread_loop fnmatch pkg (c ∷ t) cfg.rules no_match in
    let (j, member) = any_cpu (thread_match fnmatch pkg (c ∷ t)) cfg.rules rules h in
    let is =
      λ (j : ℕ). thread_loop-is_set fnmatch pkg (c ∷ t) cfg.rules no_match j rules new-IsValid in
    let members = λ (j : ℕ). (is j).1 ∙ rw (is_set-new j) refl in
    let counted = is_set-count m.cpus j (members j ∙ member) in
    let flag : m.matched ≡ true = (is 0).2 ∙ rw h refl in
    (m.cpus, rw flag (affinity_result-some cfg pkg m.cpus _ true counted), members)

thread_loop_none :
    (fnmatch : Fnmatch) (pkg thread : Text) (rs : List AffinityRule) (m : Matched)
    → any (thread_match fnmatch pkg thread) rs ≡ false
    → thread_loop fnmatch pkg thread rs m ≡ m
thread_loop_none fnmatch pkg thread [] m h = unfold thread_loop in refl
thread_loop_none fnmatch pkg thread (r ∷ rs) m h =
    let other : thread_match fnmatch pkg thread r ≡ false = ground arith in
    let rest : any (thread_match fnmatch pkg thread) rs ≡ false = ground arith in
    rw (thread_loop-cons fnmatch pkg thread r rs m, other)
      (thread_loop_none fnmatch pkg thread rs m rest)

fallback_loop_none :
    (pkg : Text) (rs : List AffinityRule) (f : Fallback)
    → any (pkg_match pkg) rs ≡ false
    → fallback_loop pkg rs f ≡ f
fallback_loop_none pkg [] f h = unfold fallback_loop in refl
fallback_loop_none pkg (r ∷ rs) f h =
    let other : pkg_match pkg r ≡ false = ground arith in
    let rest : any (pkg_match pkg) rs ≡ false = ground arith in
    rw (fallback_loop-cons pkg r rs f, other) (fallback_loop_none pkg rs f rest)

match_thread_none :
    (fnmatch : Fnmatch) (pkg thread : Text) (cfg : AppConfig)
    → (is_empty thread || not (any (thread_match fnmatch pkg thread) cfg.rules)) ≡ true
    → match_thread fnmatch pkg thread cfg ≡ no_match
match_thread_none fnmatch pkg [] cfg h = refl
match_thread_none fnmatch pkg (c ∷ t) cfg h =
    thread_loop_none fnmatch pkg (c ∷ t) cfg.rules no_match (ground arith)

-- When every rule is well formed, no thread rule matches (or the thread has no name) and the package
-- has rules of its own, the result is exactly their union, not marked as a thread rule.
pub thread_affinity-pkg :
    (fnmatch : Fnmatch) (env : Env) (pkg thread : Text) (cfg : AppConfig)
    → All IsRule cfg.rules
    → (is_empty thread || not (any (thread_match fnmatch pkg thread) cfg.rules)) ≡ true
    → any (pkg_match pkg) cfg.rules ≡ true
    → (cpus : CpuSet) × (dir : Text) × (thread_affinity fnmatch env pkg thread cfg
        ≡ some (record { cpus = cpus; cpuset_dir = dir; is_thread_rule = false }))
      × ((j : ℕ) → is_set cpus j ≡ any (λ r. pkg_match pkg r && is_set r.cpus j) cfg.rules)
unfolding thread_affinity
thread_affinity-pkg fnmatch env pkg thread cfg rules none_fits h =
    let f = fall_back pkg cfg new in
    let (j, member) = any_cpu (pkg_match pkg) cfg.rules rules h in
    let members = λ (j : ℕ).
      (fallback_loop-is_set pkg cfg.rules (record { cpus = new; cpuset_dir = []; seen = false }) j
        rules new-IsValid).1
      ∙ rw (is_set-new j) refl in
    let counted = is_set-count f.cpus j (members j ∙ member) in
    (
      f.cpus,
      f.cpuset_dir,
      rw (match_thread_none fnmatch pkg thread cfg none_fits)
          (affinity_result-some cfg pkg f.cpus f.cpuset_dir false counted),
      members,
    )

count-new : count new ≡ 0
unfolding count new count_ones
count-new = refl

-- When no rule fits, a package with thread rules gets all present CPUs, and any other has no result.
pub thread_affinity-none :
    (fnmatch : Fnmatch) (env : Env) (pkg thread : Text) (cfg : AppConfig)
    → (is_empty thread || not (any (thread_match fnmatch pkg thread) cfg.rules)) ≡ true
    → any (pkg_match pkg) cfg.rules ≡ false
    → thread_affinity fnmatch env pkg thread cfg ≡ (
        if contains pkg cfg.has_thread_rules
        then some (record { cpus = cfg.topo.present_cpus; cpuset_dir = []; is_thread_rule = false })
        else none)
unfolding thread_affinity affinity_result
thread_affinity-none fnmatch env pkg thread cfg none_fits h =
    rw (match_thread_none fnmatch pkg thread cfg none_fits) (
      rw (fallback_loop_none pkg cfg.rules (record { cpus = new; cpuset_dir = []; seen = false }) h)
        (rw count-new refl))

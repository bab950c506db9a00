-- ===== src/Cpu/Topology/Tiers.antt =====
-- The three tiers together hold the CPUs of all groups, each group in the tier of its rank.
use app_opt.Base.{
  ℕ, suc, ◌+◌, ◌-◌, ◌<◌, Bool, true, false, ◌&&◌, ◌||◌, List, [], ◌∷◌, ◌++◌, ltb, ◌==◌, any, length,
  length-append, ◌≡◌, refl, ◌∙◌, arith,
}
use app_opt.Base.Dict.{contains, ℕ_eq}
use app_opt.Cpu.Set.{CpuSet, cpu_setsize, new, set, is_set}
use app_opt.Cpu.Set.Laws.{IsValid, new-IsValid, set-IsValid, is_set-new, is_set-set}
use app_opt.Cpu.Topology.{Group, CoreTiers, set_all, tiers_loop, core_tiers}

abbrev pub in_groups : ℕ → List Group → Bool
in_groups j groups = any (λ g. contains j g.1) groups

pub set_all-IsValid : (cpus : List ℕ) (s : CpuSet) → IsValid s → IsValid (set_all cpus s)
unfolding set_all
set_all-IsValid [] s v = v
set_all-IsValid (c ∷ cpus) s v = set_all-IsValid cpus (set s c) (set-IsValid s c v)

is_set-set_all :
    (cpus : List ℕ) (s : CpuSet) (j : ℕ)
    → IsValid s
    → is_set (set_all cpus s) j ≡ ((contains j cpus && ltb j cpu_setsize) || is_set s j)
unfolding set_all
is_set-set_all [] s j v = refl
is_set-set_all (c ∷ cpus) s j v =
    rw (is_set-set_all cpus (set s c) j (set-IsValid s c v), is_set-set s c j v) (ground arith)

middle_step :
    (i n freq : ℕ) (cpus : List ℕ) (groups : List Group) (t : CoreTiers)
    → (i == 0) ≡ false
    → (i == n - 1) ≡ false
    → tiers_loop i n ((freq, cpus) ∷ groups) t
      ≡ tiers_loop (i + 1) n groups (record t { p = set_all cpus t.p })
unfolding tiers_loop
middle_step i n freq cpus groups t first end = rw (first, end) refl

-- The groups of the ranks between the first and the last.
middle_loop :
    (i n : ℕ) (mid : List Group) (last : Group) (t : CoreTiers) (j : ℕ)
    → 0 < i
    → i + length mid ≡ n - 1
    → IsValid t.p
    → IsValid t.h
    → (is_set (tiers_loop i n (mid ++ (last ∷ [])) t).e j ≡ is_set t.e j)
      × (is_set (tiers_loop i n (mid ++ (last ∷ [])) t).p j
          ≡ ((in_groups j mid && ltb j cpu_setsize) || is_set t.p j))
      × (is_set (tiers_loop i n (mid ++ (last ∷ [])) t).h j
          ≡ ((contains j last.1 && ltb j cpu_setsize) || is_set t.h j))
unfolding tiers_loop
middle_loop i n [] last t j h e vp vh =
    let first : (i == 0) ≡ false = ground arith in
    let end : (i == n - 1) ≡ true = ground arith in
    rw (first, end) (refl, refl, is_set-set_all last.1 t.h j vh)
middle_loop i n ((freq, cpus) ∷ mid) last t j h e vp vh =
    let first : (i == 0) ≡ false = ground arith in
    let end : (i == n - 1) ≡ false = ground arith in
    let rest =
      middle_loop (i + 1) n mid last (record t { p = set_all cpus t.p }) j (omega arith)
        (omega arith) (set_all-IsValid cpus t.p vp) vh in
    rw (middle_step i n freq cpus (mid ++ (last ∷ [])) t first end)
      (rest.0, rest.1 ∙ rw (is_set-set_all cpus t.p j vp) (ground arith), rest.2)

-- Of two groups or more the first is `e`, the last is `h`, and those between them are `p`, each cut
-- to the size of the set.
pub core_tiers_ranks :
    (first : Group) (mid : List Group) (last : Group) (j : ℕ)
    → (is_set (core_tiers (first ∷ (mid ++ (last ∷ [])))).e j
        ≡ (contains j first.1 && ltb j cpu_setsize))
      × (is_set (core_tiers (first ∷ (mid ++ (last ∷ [])))).p j
          ≡ (in_groups j mid && ltb j cpu_setsize))
      × (is_set (core_tiers (first ∷ (mid ++ (last ∷ [])))).h j
          ≡ (contains j last.1 && ltb j cpu_setsize))
unfolding core_tiers
core_tiers_ranks first mid last j =
    let rest =
      middle_loop 1 (suc (length (mid ++ (last ∷ [])))) mid last
        (record { e = set_all first.1 new; p = new; h = new }) j (omega arith)
        (omega (arith, length-append mid (last ∷ []))) new-IsValid new-IsValid in
    (
      rest.0 ∙ rw (is_set-set_all first.1 new j new-IsValid, is_set-new j) (ground arith),
      rest.1 ∙ rw (is_set-new j) (ground arith),
      rest.2 ∙ rw (is_set-new j) (ground arith),
    )

-- A single group is `e`, and the other tiers are empty.
pub core_tiers_single :
    (g : Group) (j : ℕ)
    → (is_set (core_tiers (g ∷ [])).e j ≡ (contains j g.1 && ltb j cpu_setsize))
      × ((core_tiers (g ∷ [])).p ≡ new)
      × ((core_tiers (g ∷ [])).h ≡ new)
unfolding core_tiers
core_tiers_single g j =
    (rw (is_set-set_all g.1 new j new-IsValid, is_set-new j) (ground arith), refl, refl)

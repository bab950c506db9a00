-- ===== src/Cpu/Spec/Laws.antt =====
-- `parse_cpu_spec` is the union of what its parts stand for.
use app_opt.Base.{
  ℕ, Bool, false, ◌||◌, List, [], ◌∷◌, any, if◌then◌else◌, ◌≡◌, ◌∙◌, refl, ap, arith, Bool-cases,
  inl, inr, Option, none, some, ltb, ◌&&◌,
}
use app_opt.Base.Dict.{lookup, text_eq}
use app_opt.Base.Text.{Text, codes, eq_text, eq_text_iff, is_empty, trim, split}
use app_opt.Cpu.Ranges.Parse.{covers, is_set-parse_cpu_ranges, parse_cpu_ranges-IsValid}
use app_opt.Cpu.Set.{CpuSet, cpu_setsize, new, or, is_set}
use app_opt.Cpu.Set.Laws.{IsValid, new-IsValid, or-IsValid, is_set-new, is_set-or}
use app_opt.Cpu.Spec.{spec_part, spec_parts, parse_cpu_spec}
use app_opt.Cpu.Topology.{CpuTopology}

pub record TopologyValid (topo : CpuTopology) : Type 0 where
  pub present : IsValid topo.present_cpus
  pub e : IsValid topo.e_core
  pub p : IsValid topo.p_core
  pub hp : IsValid topo.hp_core

spec_part-IsValid :
    (topo : CpuTopology) (part : Text) → TopologyValid topo → IsValid (spec_part topo part)
unfolding spec_part
spec_part-IsValid topo part v = grind (arith, parse_cpu_ranges-IsValid)

abbrev part_covers : CpuTopology → ℕ → Text → Bool
part_covers topo j part =
    if is_empty (trim part) then false else is_set (spec_part topo (trim part)) j

step-IsValid :
    (topo : CpuTopology) (part : Text) (s : CpuSet)
    → TopologyValid topo
    → IsValid s
    → IsValid (if is_empty (trim part) then s else or s (spec_part topo (trim part)))
step-IsValid topo part s t v = elim (Bool-cases (is_empty (trim part))) [
  | inl blank ↦ rw blank v
  | inr full ↦ rw full (or-IsValid s _ v (spec_part-IsValid topo (trim part) t))
]

spec_parts-IsValid :
    (topo : CpuTopology) (parts : List Text) (s : CpuSet)
    → TopologyValid topo
    → IsValid s
    → IsValid (spec_parts topo parts s)
unfolding spec_parts
spec_parts-IsValid topo [] s t v = v
spec_parts-IsValid topo (part ∷ parts) s t v =
    spec_parts-IsValid topo parts _ t (step-IsValid topo part s t v)

is_set-spec_parts :
    (topo : CpuTopology) (parts : List Text) (s : CpuSet) (j : ℕ)
    → TopologyValid topo
    → IsValid s
    → is_set (spec_parts topo parts s) j ≡ (any (part_covers topo j) parts || is_set s j)
unfolding spec_parts
is_set-spec_parts topo [] s j t v = refl
is_set-spec_parts topo (part ∷ parts) s j t v =
    rw (is_set-spec_parts topo parts _ j t (step-IsValid topo part s t v))
      (elim (Bool-cases (is_empty (trim part))) [
        | inl blank ↦ rw blank refl
        | inr full ↦
            rw (full, is_set-or s _ j v (spec_part-IsValid topo (trim part) t)) (ground arith)
      ])

pub parse_cpu_spec-IsValid :
    (spec : Text) (topo : CpuTopology) → TopologyValid topo → IsValid (parse_cpu_spec spec topo)
unfolding parse_cpu_spec
parse_cpu_spec-IsValid [] topo t = new-IsValid
parse_cpu_spec-IsValid (c ∷ spec) topo t =
    spec_parts-IsValid topo (split b',' (c ∷ spec)) new t new-IsValid

-- The sets that the names of the tiers stand for.
abbrev tiers : CpuTopology → List (Text × CpuSet)
tiers topo =
    (codes "e-core", topo.e_core)
    ∷ (codes "p-core", topo.p_core)
    ∷ (codes "hp-core", topo.hp_core)
    ∷ (codes "all-core", topo.present_cpus)
    ∷ []

abbrev tier_covers : Option CpuSet → CpuTopology → ℕ → Text → Bool
tier_covers (some tier) topo j part = is_set tier j
tier_covers none topo j part =
    any (covers j) (split b',' part) && ltb j cpu_setsize && is_set topo.present_cpus j

abbrev pub spec_covers : CpuTopology → ℕ → Text → Bool
spec_covers topo j part =
    if is_empty (trim part)
    then false
    else tier_covers (lookup (trim part) (tiers topo)) topo j (trim part)

eq_text_comm : (a b : Text) → eq_text a b ≡ eq_text b a
eq_text_comm a b = ground (arith, eq_text_iff a b, eq_text_iff b a)

is_set-spec_part :
    (topo : CpuTopology) (j : ℕ) (part : Text)
    → is_set (spec_part topo part) j ≡ tier_covers (lookup part (tiers topo)) topo j part
unfolding spec_part
is_set-spec_part topo j part =
    rw
      (
        eq_text_comm (codes "e-core") part,
        eq_text_comm (codes "p-core") part,
        eq_text_comm (codes "hp-core") part,
        eq_text_comm (codes "all-core") part,
      )
      (ground (arith, is_set-parse_cpu_ranges part (some topo.present_cpus) j))

part_covers-spec_covers :
    (topo : CpuTopology) (j : ℕ) (part : Text) → part_covers topo j part ≡ spec_covers topo j part
part_covers-spec_covers topo j part =
    ap (λ b. if is_empty (trim part) then false else b) (is_set-spec_part topo j (trim part))

any-cong :
    (p q : Text → Bool) (parts : List Text)
    → ((part : Text) → p part ≡ q part)
    → any p parts ≡ any q parts
any-cong p q [] h = refl
any-cong p q (part ∷ parts) h = rw (h part, any-cong p q parts h) refl

or_false : (b : Bool) → (b || false) ≡ b
or_false b = ground arith

-- Over a valid topology, a CPU is in the set of a specification exactly when some part that is not
-- blank covers it: `e-core`, `p-core`, `hp-core` and `all-core` cover the CPUs of that tier of the
-- topology, or all that are present, and any other text covers the present CPUs of its ranges.
pub is_set-parse_cpu_spec :
    (spec : Text) (topo : CpuTopology) (j : ℕ)
    → TopologyValid topo
    → is_set (parse_cpu_spec spec topo) j ≡ any (spec_covers topo j) (split b',' spec)
unfolding parse_cpu_spec split trim
is_set-parse_cpu_spec [] topo j t = is_set-new j
is_set-parse_cpu_spec (c ∷ spec) topo j t =
    rw (is_set-spec_parts topo (split b',' (c ∷ spec)) new j t new-IsValid, is_set-new j)
      (or_false _
        ∙ any-cong (part_covers topo j) (spec_covers topo j) (split b',' (c ∷ spec))
            (part_covers-spec_covers topo j))

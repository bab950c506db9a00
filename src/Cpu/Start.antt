-- ===== src/Cpu/Start.antt =====
-- `init_cpu_topo` of AppOpt/src/cpuset.rs. The files and the calls of the system are arguments.
use app_opt.Base.{
  ℕ, ◌+◌, ◌-◌, Bool, false, not, List, [], ◌∷◌, Option, none, some, ◌==◌, length, if_elim,
  if◌then◌else◌,
}
use app_opt.Base.Text.{Text, codes, is_empty, trim}
use app_opt.Cpu.Dirs.{Sys, base_cpuset, create_cpuset_dir}
use app_opt.Cpu.Ranges.{parse_cpu_ranges}
use app_opt.Cpu.Ranges.Parse.{parse_cpu_ranges-IsValid}
use app_opt.Cpu.Set.Laws.{IsValid, new-IsValid}
use app_opt.Cpu.Spec.Laws.{TopologyValid}
use app_opt.Cpu.Topology.{
  CpuTopology, Entry, CoreTiers, Group, detect_core_types, core_tiers, tiers_loop, sort_groups,
  collect_groups,
}
use app_opt.Cpu.Topology.Tiers.{set_all-IsValid}

-- The files `present` and `mems`, the entries of the policies, and whether /dev/cpuset is there.
pub record Machine : Type 0 where
  pub present : Option Text
  pub mems : Option Text
  pub policies : List Entry
  pub has_cpuset : Bool

abbrev or_blank : Option Text → Text
or_blank none = []
or_blank (some s) = trim s

abbrev or_node_0 : Text → Text
or_node_0 s = if is_empty s then codes "0" else s

-- The topology before the check of /dev/cpuset.
abbrev detected : Machine → CpuTopology
detected m =
    let tiers = detect_core_types m.policies in
    record {
      present_cpus = parse_cpu_ranges (or_blank m.present) none;
      present_str = or_blank m.present;
      mems_str = [];
      cpuset_enabled = false;
      e_core = tiers.e;
      p_core = tiers.p;
      hp_core = tiers.h;
    }

unfoldable pub init_cpu_topo : Sys → Option Text → Machine → CpuTopology
init_cpu_topo sys base m =
    let topo = detected m in
    let mems = or_node_0 (or_blank m.mems) in
    if not m.has_cpuset then topo else record topo {
      mems_str = mems;
      cpuset_enabled = create_cpuset_dir sys (base_cpuset base) topo.present_str mems;
    }

record TiersValid (t : CoreTiers) : Type 0 where
  e : IsValid t.e
  p : IsValid t.p
  h : IsValid t.h

tiers_loop-TiersValid :
    (i n : ℕ) (groups : List Group) (t : CoreTiers)
    → TiersValid t
    → TiersValid (tiers_loop i n groups t)
unfolding tiers_loop
tiers_loop-TiersValid i n [] t v = v
tiers_loop-TiersValid i n ((freq, cpus) ∷ groups) t v = tiers_loop-TiersValid (i + 1) n groups _ (
    if_elim TiersValid (i == 0) (record { e = set_all-IsValid cpus t.e v.e; p = v.p; h = v.h })
      (if_elim TiersValid (i == n - 1)
        (record { e = v.e; p = v.p; h = set_all-IsValid cpus t.h v.h })
        (record { e = v.e; p = set_all-IsValid cpus t.p v.p; h = v.h })))

detect_core_types-TiersValid : (entries : List Entry) → TiersValid (detect_core_types entries)
unfolding detect_core_types core_tiers
detect_core_types-TiersValid entries =
    let groups = sort_groups (collect_groups entries []) in
    tiers_loop-TiersValid 0 (length groups) groups _
      (record { e = new-IsValid; p = new-IsValid; h = new-IsValid })

pub init_cpu_topo-TopologyValid :
    (sys : Sys) (base : Option Text) (m : Machine) → TopologyValid (init_cpu_topo sys base m)
unfolding init_cpu_topo
init_cpu_topo-TopologyValid sys base m =
    let tiers = detect_core_types-TiersValid m.policies in
    let present = parse_cpu_ranges-IsValid (or_blank m.present) none in
    if_elim {A = CpuTopology} TopologyValid (not m.has_cpuset)
      (record { present = present; e = tiers.e; p = tiers.p; hp = tiers.h })
      (record { present = present; e = tiers.e; p = tiers.p; hp = tiers.h })

-- ===== src/Tests/Cpus.antt =====
-- Sets of CPUs, their texts and the tiers.
use app_opt.Base.{◌&&◌, ◌≡◌, [], ◌∷◌, none, any, ltb}
use app_opt.Base.Text.{codes, split}
use app_opt.Base.Dict.{contains, ℕ_eq}
use app_opt.Cpu.Ranges.{to_range_string, parse_cpu_ranges, allowed}
use app_opt.Cpu.Ranges.Parse.{covers, is_set-parse_cpu_ranges}
use app_opt.Cpu.Ranges.RoundTrip.{parse_cpu_ranges-to_range_string}
use app_opt.Cpu.Set.{is_set, cpu_setsize, new, set}
use app_opt.Cpu.Set.Laws.{new-IsValid, set-IsValid}
use app_opt.Cpu.Spec.{parse_cpu_spec}
use app_opt.Cpu.Spec.Laws.{TopologyValid, spec_covers, is_set-parse_cpu_spec}
use app_opt.Cpu.Topology.{CpuTopology, Group, core_tiers}
use app_opt.Cpu.Topology.Tiers.{in_groups, core_tiers_ranks}
use app_opt.Tests.Data.{some_cpus, some_cpus-IsValid, topo, topo-TopologyValid}

parse_cpu_ranges-to_range_string_example :
    parse_cpu_ranges (to_range_string some_cpus) none ≡ some_cpus
parse_cpu_ranges-to_range_string_example =
    parse_cpu_ranges-to_range_string some_cpus some_cpus-IsValid

is_set-parse_cpu_ranges_example :
    is_set (parse_cpu_ranges (codes "0-3,6") none) 6
    ≡ (any (covers 6) (split b',' (codes "0-3,6")) && ltb 6 cpu_setsize && allowed none 6)
is_set-parse_cpu_ranges_example = is_set-parse_cpu_ranges (codes "0-3,6") none 6

-- Its hp-cores are the CPU 70, its e-cores the CPU 1.
abbrev tiered : CpuTopology
tiered = record topo { hp_core = set new 70 }

tiered-TopologyValid : TopologyValid tiered
tiered-TopologyValid = record {
  present = topo-TopologyValid.present;
  e = topo-TopologyValid.e;
  p = topo-TopologyValid.p;
  hp = set-IsValid new 70 new-IsValid;
}

is_set-parse_cpu_spec_example :
    is_set (parse_cpu_spec (codes "e-core, 0-5,hp-core") tiered) 70
    ≡ any (spec_covers tiered 70) (split b',' (codes "e-core, 0-5,hp-core"))
is_set-parse_cpu_spec_example =
    is_set-parse_cpu_spec (codes "e-core, 0-5,hp-core") tiered 70 tiered-TopologyValid

abbrev slow : Group
slow = (1800, 0 ∷ 1 ∷ [])

abbrev middle : Group
middle = (2400, 4 ∷ [])

abbrev fast : Group
fast = (3000, 7 ∷ [])

core_tiers_ranks_example :
    (is_set (core_tiers (slow ∷ middle ∷ fast ∷ [])).e 1 ≡ (contains 1 slow.1 && ltb 1 cpu_setsize))
    × (is_set (core_tiers (slow ∷ middle ∷ fast ∷ [])).p 1
        ≡ (in_groups 1 (middle ∷ []) && ltb 1 cpu_setsize))
    × (is_set (core_tiers (slow ∷ middle ∷ fast ∷ [])).h 1
        ≡ (contains 1 fast.1 && ltb 1 cpu_setsize))
core_tiers_ranks_example = core_tiers_ranks slow (middle ∷ []) fast 1

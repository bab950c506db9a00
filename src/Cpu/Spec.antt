-- ===== src/Cpu/Spec.antt =====
-- `parse_cpu_spec` of AppOpt/src/cpuset.rs: names of core tiers mixed with number ranges.
pub mod Laws
use app_opt.Base.{Bool, List, [], ◌∷◌, some, if◌then◌else◌}
use app_opt.Base.Text.{Text, codes, is_empty, eq_text, trim, split}
use app_opt.Cpu.Ranges.{parse_cpu_ranges}
use app_opt.Cpu.Set.{CpuSet, new, or}
use app_opt.Cpu.Topology.{CpuTopology}

-- The set that one trimmed part stands for.
unfoldable pub spec_part : CpuTopology → Text → CpuSet
spec_part topo part =
    if eq_text part (codes "e-core")
    then topo.e_core
    else if eq_text part (codes "p-core")
    then topo.p_core
    else if eq_text part (codes "hp-core")
    then topo.hp_core
    else if eq_text part (codes "all-core")
    then topo.present_cpus
    else parse_cpu_ranges part (some topo.present_cpus)

unfoldable pub spec_parts : CpuTopology → List Text → CpuSet → CpuSet
spec_parts topo [] s = s
spec_parts topo (part ∷ parts) s =
    spec_parts topo parts (if is_empty (trim part) then s else or s (spec_part topo (trim part)))

unfoldable pub parse_cpu_spec : Text → CpuTopology → CpuSet
unfolding spec_parts spec_part
parse_cpu_spec spec topo = if is_empty spec then new else spec_parts topo (split b',' spec) new

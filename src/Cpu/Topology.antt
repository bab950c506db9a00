-- ===== src/Cpu/Topology.antt =====
-- `CpuTopology` and `detect_core_types` of AppOpt/src/cpuset.rs. What the kernel's files under
-- cpufreq hold comes as an argument.
pub mod Tiers
use app_opt.Base.{
  ℕ, zero, suc, ◌+◌, ◌-◌, ◌^◌, Bool, true, false, not, ◌&&◌, List, [], ◌∷◌, ◌++◌, Option, none,
  some, leb, ◌==◌, if◌then◌else◌, length,
}
use app_opt.Base.Decimal.{parse_uint, usize_bound}
use app_opt.Base.Text.{Text, codes, is_empty, trim, starts_with, strip_prefix, split_whitespace}
use app_opt.Cpu.Set.{CpuSet, new, set}

pub record CpuTopology : Type 0 where
  pub present_cpus : CpuSet
  pub present_str : Text
  pub mems_str : Text
  pub cpuset_enabled : Bool
  pub e_core : CpuSet
  pub p_core : CpuSet
  pub hp_core : CpuSet

-- One entry of the cpufreq directory: its name, where it is valid UTF-8, and its two files.
pub record Entry : Type 0 where
  pub file_name : Option Text
  pub cpuinfo_max_freq : Option Text
  pub related_cpus : Option Text

abbrev pub Group : Type 0
Group = ℕ × List ℕ

abbrev is_policy : Option Text → Bool
is_policy none = false
is_policy (some n) = starts_with (codes "policy") n

abbrev or_zero : Option ℕ → ℕ
or_zero none = 0
or_zero (some n) = n

unfoldable pub freq_of : Option Text → ℕ
freq_of none = 0
freq_of (some s) = or_zero (parse_uint (2 ^ 64) (trim s))

unfoldable pub parse_all : List Text → List ℕ
parse_all [] = []
parse_all (w ∷ ws) = elim (parse_uint usize_bound w) [
  | none ↦ parse_all ws
  | some n ↦ n ∷ parse_all ws
]

unfoldable pub cpus_of : Option Text → List ℕ
unfolding parse_all
cpus_of none = []
cpus_of (some s) = parse_all (split_whitespace s)

-- `groups.iter_mut().find(…)`: the group of the frequency grows, or a new one is pushed.
unfoldable pub add_group : ℕ → List ℕ → List Group → List Group
add_group freq cpus [] = (freq, cpus) ∷ []
add_group freq cpus ((f, g) ∷ groups) =
    if f == freq then (f, g ++ cpus) ∷ groups else (f, g) ∷ add_group freq cpus groups

unfoldable pub add_entry : Entry → List Group → List Group
add_entry e groups =
    if not (is_policy e.file_name)
    then groups
    else if freq_of e.cpuinfo_max_freq == 0
    then groups
    else if is_empty (cpus_of e.related_cpus)
    then groups
    else add_group (freq_of e.cpuinfo_max_freq) (cpus_of e.related_cpus) groups

unfoldable pub collect_groups : List Entry → List Group → List Group
unfolding add_entry
collect_groups [] groups = groups
collect_groups (e ∷ es) groups = collect_groups es (add_entry e groups)

-- `sort_by_key` by the frequency, which is stable.
unfoldable pub insert_group : Group → List Group → List Group
insert_group g [] = g ∷ []
insert_group g (h ∷ hs) = if leb g.0 h.0 then g ∷ h ∷ hs else h ∷ insert_group g hs

unfoldable pub sort_groups : List Group → List Group
unfolding insert_group
sort_groups [] = []
sort_groups (g ∷ gs) = insert_group g (sort_groups gs)

unfoldable pub set_all : List ℕ → CpuSet → CpuSet
set_all [] s = s
set_all (cpu ∷ cpus) s = set_all cpus (set s cpu)

pub record CoreTiers : Type 0 where
  pub e : CpuSet
  pub p : CpuSet
  pub h : CpuSet

-- `for (i, (_, cpus)) in groups.iter().enumerate()`, where `n` is the number of all groups.
unfoldable pub tiers_loop : ℕ → ℕ → List Group → CoreTiers → CoreTiers
tiers_loop i n [] t = t
tiers_loop i n ((freq, cpus) ∷ groups) t = tiers_loop (i + 1) n groups (
    if i == 0
    then record t { e = set_all cpus t.e }
    else if i == n - 1
    then record t { h = set_all cpus t.h }
    else record t { p = set_all cpus t.p })

unfoldable pub core_tiers : List Group → CoreTiers
unfolding tiers_loop set_all
core_tiers groups = tiers_loop 0 (length groups) groups (record { e = new; p = new; h = new })

unfoldable pub detect_core_types : List Entry → CoreTiers
unfolding collect_groups sort_groups core_tiers
detect_core_types entries = core_tiers (sort_groups (collect_groups entries []))

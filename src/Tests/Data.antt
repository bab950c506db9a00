-- ===== src/Tests/Data.antt =====
-- The inputs that the tests share.
use app_opt.Base.{true, ◌<◌, [], ◌∷◌, none, refl, arith, All}
use app_opt.Base.Text.{Text, codes, starts_with}
use app_opt.Config.Load.{AffinityRule, AppConfig, Env, config_of}
use app_opt.Config.Load.Rules.{IsRule}
use app_opt.Cpu.Dirs.{Sys, made}
use app_opt.Cpu.Set.{CpuSet, new, set, is_set, count}
use app_opt.Cpu.Set.Count.{is_set-count}
use app_opt.Cpu.Set.Laws.{IsValid, new-IsValid, set-IsValid}
use app_opt.Cpu.Spec.Laws.{TopologyValid}
use app_opt.Cpu.Topology.{CpuTopology}
use app_opt.Match.{Fnmatch}

abbrev pub one_cpu : CpuSet
one_cpu = set new 1

abbrev pub some_cpus : CpuSet
some_cpus = set (set (set (set new 0) 1) 2) 70

pub one_cpu-IsValid : IsValid one_cpu
one_cpu-IsValid = set-IsValid new 1 new-IsValid

pub some_cpus-IsValid : IsValid some_cpus
some_cpus-IsValid =
    set-IsValid _ 70 (set-IsValid _ 2 (set-IsValid _ 1 (set-IsValid new 0 new-IsValid)))

abbrev pub topo : CpuTopology
topo = record {
  present_cpus = some_cpus;
  present_str = codes "0-2,70";
  mems_str = codes "0";
  cpuset_enabled = true;
  e_core = one_cpu;
  p_core = new;
  hp_core = new;
}

pub topo-TopologyValid : TopologyValid topo
topo-TopologyValid = record {
  present = some_cpus-IsValid;
  e = one_cpu-IsValid;
  p = new-IsValid;
  hp = new-IsValid;
}

abbrev pub sys : Sys
sys = record { mkdir = λ _. made; chmod = λ _. true; chown = λ _. true; write = λ _ _. true }

abbrev pub env : Env
env = record { sys = sys; base = none; topo = topo }

-- A pattern that stands for the texts which start with it.
abbrev pub fnmatch : Fnmatch
fnmatch p s = starts_with p s

abbrev pub rule_of : Text → AffinityRule
rule_of thread = record {
  pkg = codes "com.a";
  thread = thread;
  thread_pattern = thread;
  cpuset_dir = [];
  cpus = one_cpu;
}

abbrev pub cfg : AppConfig
cfg = config_of topo (rule_of (codes "Render") ∷ rule_of [] ∷ [])

one_cpu-count : 0 < count one_cpu
unfolding new set is_set
one_cpu-count = is_set-count one_cpu 1 refl

pub cfg-IsRule : All IsRule cfg.rules
unfolding config_of
cfg-IsRule = (
  record {
    pkg-ne-nil = cc;
    pkg_short = omega arith;
    thread_short = omega arith;
    no_control = refl;
    pattern = refl;
    some_cpu = one_cpu-count;
    cpus_valid = one_cpu-IsValid;
  },
  (
    record {
      pkg-ne-nil = cc;
      pkg_short = omega arith;
      thread_short = omega arith;
      no_control = refl;
      pattern = refl;
      some_cpu = one_cpu-count;
      cpus_valid = one_cpu-IsValid;
    },
    tt,
  ),
)

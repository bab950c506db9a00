-- ===== src/Tests/Started.antt =====
-- The start and the readers of /proc on concrete files.
use app_opt.Base.{◌≡◌, false, [], ◌∷◌, ◌++◌, Option, none, some, true, refl}
use app_opt.Base.Decimal.{parse_uint}
use app_opt.Base.Text.{Text, codes, split, trim}
use app_opt.Cpu.Dirs.{Sys, made, create_cpuset_dir}
use app_opt.Cpu.Start.{Machine, init_cpu_topo}
use app_opt.Refresh.Settings.{parse_i32}
use app_opt.Scan.Readers.{read_cmdline, tid_comm, task_tids}

abbrev ascii : Text → Option Text
ascii s = some s

cmdline_path :
    read_cmdline ascii (some (codes "/system/bin/sh" ++ (0 ∷ codes "-c"))) ≡ some (codes "sh")
unfolding read_cmdline trim split
cmdline_path = refl

cmdline_kernel_thread : read_cmdline ascii (some []) ≡ none
unfolding read_cmdline
cmdline_kernel_thread = refl

cmdline_blank : read_cmdline ascii (some (codes "bin/ ")) ≡ none
unfolding read_cmdline trim split
cmdline_blank = refl

comm_line : tid_comm ascii (some (codes "RenderThread\n")) ≡ some (codes "RenderThread")
unfolding tid_comm trim
comm_line = refl

task_names : task_tids (some (codes "12" ∷ codes ".." ∷ codes "13" ∷ [])) ≡ some (12 ∷ 13 ∷ [])
unfolding task_tids parse_i32 parse_uint
task_names = refl

-- Every call of the system is answered, but /dev/cpuset/AppOpt cannot be written.
abbrev read_only : Sys
read_only = record {
  mkdir = λ path. made;
  chmod = λ path. true;
  chown = λ path. true;
  write = λ path text. false;
}

abbrev machine : Machine
machine = record {
  present = some (codes "0-3\n");
  mems = some (codes " ");
  policies = [];
  has_cpuset = true;
}

start_read_only : (init_cpu_topo read_only none machine).cpuset_enabled ≡ false
unfolding init_cpu_topo create_cpuset_dir
start_read_only = refl

start_mems : (init_cpu_topo read_only none machine).mems_str ≡ codes "0"
unfolding init_cpu_topo trim
start_mems = refl

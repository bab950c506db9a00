-- ===== src/Cpu/Dirs.antt =====
-- The cpuset directories of AppOpt/src/cpuset.rs. The system calls are an argument.
use app_opt.Base.{Bool, true, false, not, ◌||◌, ◌∷◌, ◌++◌, Option, none, some, if◌then◌else◌}
use app_opt.Base.Text.{Text, codes, is_empty, contains_char}
use app_opt.Cpu.Ranges.{to_range_string}
use app_opt.Cpu.Set.{CpuSet}
use app_opt.Cpu.Topology.{CpuTopology}

-- The outcome of `mkdir`: `exists` is the error EEXIST.
pub data Mkdir : Type 0 where
  made exists refused : Mkdir

-- What the system answers to each call; `write` is `fs::write` of a text to a path.
pub record Sys : Type 0 where
  pub mkdir : Text → Mkdir
  pub chmod : Text → Bool
  pub chown : Text → Bool
  pub write : Text → Text → Bool

-- `BASE_CPUSET_PATH` after `set_base_cpuset`.
unfoldable pub set_base_cpuset : Text → Option Text → Option Text
set_base_cpuset name base =
    if is_empty name || contains_char b'/' name then base else some (codes "/dev/cpuset/" ++ name)

unfoldable pub base_cpuset : Option Text → Text
base_cpuset none = codes "/dev/cpuset/AppOpt"
base_cpuset (some path) = path

abbrev is_refused : Mkdir → Bool
is_refused refused = true
is_refused _ = false

unfoldable pub create_cpuset_dir : Sys → Text → Text → Text → Bool
create_cpuset_dir sys path cpus mems =
    if is_refused (sys.mkdir path)
    then false
    else if not (sys.chmod path)
    then false
    else if not (sys.chown path)
    then false
    else if not (sys.write (path ++ codes "/cpus") cpus)
    then false
    else sys.write (path ++ codes "/mems") mems

unfoldable pub ensure_cpuset_dir : Sys → Option Text → CpuSet → CpuTopology → Text
ensure_cpuset_dir sys base cpus topo =
    if not topo.cpuset_enabled
    then codes ""
    else (let dir_name = to_range_string cpus in
        if create_cpuset_dir sys (base_cpuset base ++ (b'/' ∷ dir_name)) dir_name topo.mems_str
        then dir_name
        else codes "")

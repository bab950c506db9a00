-- ===== src/Tests/Rounds.antt =====
-- The watcher of the rule file, and the rounds of the daemon, on small inputs.
use app_opt.Base.{true, false, ◌≡◌, ◌⊎◌, refl, [], ◌∷◌, Option, none, some}
use app_opt.Base.Text.{codes}
use app_opt.Config.Load.{AppConfig}
use app_opt.Config.Watch.{Watch, World, events, again, timeout, ready, config_loader}
use app_opt.Config.Watch.Fresh.{IsFresh, config_loader-IsFresh}
use app_opt.Daemon.Parts.{Side, Answers, parts_of}
use app_opt.Daemon.Round.{Parts, Daemon, round, run}
use app_opt.Daemon.Round.Modes.{run-ebpf}
use app_opt.Ebpf.{comm_map_init}
use app_opt.Kernel.{Maps}
use app_opt.Cache.{done}
use app_opt.Tests.Data.{sys, cfg, env, topo, fnmatch}

abbrev world : World
world = record {
  sys = sys;
  base = none;
  files = λ _. record { mtime = some 9; content = some (codes "com.b=1\n") };
  init = some 3;
  add_watch = λ _. some 1;
}

abbrev watch : Watch
watch = record {
  supported = true;
  fd = some 3;
  wd = some 1;
  last_mtime = 5;
  updated = false;
  force_reload = false;
  config_file = codes "./applist.conf";
  current = some cfg;
  parse_fails = 0;
}

-- The file is written to, and then moved away.
config_loader-IsFresh_example :
    IsFresh world cfg 9
      (codes "com.b=1\n")
      (config_loader world (ready (events (8 ∷ 2048 ∷ []) ∷ again ∷ [])) watch)
    ⊎ IsFresh world cfg 9 (codes "com.b=1\n") (
        config_loader world timeout
          (config_loader world (ready (events (8 ∷ 2048 ∷ []) ∷ again ∷ [])) watch))
config_loader-IsFresh_example =
    config_loader-IsFresh world cfg 9 (codes "com.b=1\n") (8 ∷ 2048 ∷ []) (again ∷ []) timeout watch
      (record { loaded_yet = refl; mtime = refl; content = refl }) refl refl refl

-- An eBPF mode that would always start.
abbrev parts : Parts Unit
parts = record {
  retry_init = some tt;
  reload_init = some tt;
  comm_map_init = λ _ e. (false, e);
  full_scan = λ _ e. e;
  receive = λ _ e. (false, e);
  affinity_check = λ _ e. e;
  cache_sync = λ _ s. s;
  affinity_sync = λ _ s. s;
}

-- The automatic mode has given up.
abbrev daemon : Daemon Unit
daemon = record {
  updated = true;
  current = some cfg;
  check_interval = 2;
  mode = 0;
  gave_up = true;
  ebpf = none;
  proc = none;
  affinity_deadline = 0;
  ebpf_retry_at = 0;
}

run-ebpf_example : (run ((parts, 40) ∷ (parts, 80) ∷ []) daemon).ebpf ≡ none
run-ebpf_example = run-ebpf ((parts, 40) ∷ (parts, 80) ∷ []) daemon refl refl

abbrev rules : AppConfig
rules = record { rules = []; pkgs = codes "com.a" ∷ []; has_thread_rules = []; topo = topo }

abbrev side : Side
side = record {
  state = record { tasks = []; bpf = record { applied = none; calls = []; inputs = 0 } };
  filter = [];
  found = true;
  comm_capacity = 512;
}

abbrev answers : Answers
answers = record {
  retry_init = none;
  reload_init = none;
  accepts = λ _ _. true;
  clear = λ _. [];
  env = env;
  threads = record { get_affinity = λ _. none; set_affinity = λ _ _. done };
  insert = λ k v m. some ((k, v) ∷ m);
  fs = record {
    entries = none;
    read_cmdline = λ _. none;
    tid_comm = λ _. none;
    task_tids = λ _. none;
  };
  events = [];
  closed = false;
  sysinfo = none;
  alive = λ _. true;
}

abbrev changed : Daemon Side
changed = record {
  updated = true;
  current = some rules;
  check_interval = 2;
  mode = 1;
  gave_up = false;
  ebpf = some side;
  proc = none;
  affinity_deadline = 40;
  ebpf_retry_at = 0;
}

abbrev or_side : Option Side → Side
or_side none = side
or_side (some s) = s

abbrev side_after : Side
side_after = or_side (round (parts_of fnmatch answers) 40 changed).ebpf

abbrev maps : Maps
maps = record {
  target_comm_map = [];
  applied_map = [];
  offsets_map = none;
  last_input_ns = none;
  events = [];
}

-- ===== src/Tests/Reported.antt =====
-- The filter, the events and the scan on concrete processes.
use app_opt.Base.{ℕ, Bool, true, false, ◌≡◌, List, [], ◌∷◌, ◌++◌, none, some, refl}
use app_opt.Base.Dict.{lookup, insert, ℕ_eq}
use app_opt.Base.Text.{Text, codes, eq_text, strip_prefix, ends_with, trim}
use app_opt.Cache.{Threads, done}
use app_opt.Ebpf.{
  KeyMap, comm_map_init, comm_keys_build, push_keys, keys_of, as_bytes, encode, sort_keys,
  insert_key, le_key, dedup, dedup_after, insert_keys,
}
use app_opt.Ebpf.Comm.{comm_str}
use app_opt.Ebpf.Events.{EbpfState, LruInsert, Event, event_dispatch}
use app_opt.Ebpf.Events.Laws.{in_map, event_dispatch_frame, event_dispatch_gone}
use app_opt.Ebpf.Whitelist.{comm_array}
use app_opt.Kernel.{
  Maps, Helpers, TracepointOffsets, EventType, rename, exit, whitelist_matched, sched_process_fork,
  task_rename, or_zeros, high_word,
}
use app_opt.Kernel.Tracking.{task_rename-sched_process_fork}
use app_opt.Match.{comm_to_pkg}
use app_opt.Scan.{ProcFs, ProcScanState, proc_scan, to_visit}
use app_opt.Scan.Readers.{until}
use app_opt.Scan.Entries.{AllWanted, proc_scan-AllWanted}
use app_opt.Tests.Data.{env, fnmatch, cfg, one_cpu}

abbrev pkgs : List Text
pkgs = codes "com.example.app.name.long" ∷ codes "com.a" ∷ []

abbrev offsets : TracepointOffsets
offsets = record { fork_child_pid = 44; fork_child_comm = 28; rename_newcomm = 28 }

abbrev maps : Maps
maps = record {
  target_comm_map = [];
  applied_map = (10, 1) ∷ [];
  offsets_map = some offsets;
  last_input_ns = some 0;
  events = [];
}

abbrev accepts_all : List ℕ → KeyMap → Bool
accepts_all k m = true

abbrev clear : KeyMap → KeyMap
clear m = []

-- The name `com.a` with a space behind it: user space trims the space and finds the package, and the
-- filter of the kernel, which compares the bytes, lets the name not pass.
spaced :
    (comm_to_pkg (comm_str (λ t. some t) (comm_array (codes "com.a "))) pkgs ≡ some (codes "com.a"))
    × (whitelist_matched (comm_array (codes "com.a ")) (record maps {
      target_comm_map = (comm_map_init accepts_all clear true pkgs 512 maps.target_comm_map).1;
    })
        ≡ false)
unfolding comm_map_init comm_keys_build push_keys keys_of as_bytes encode sort_keys insert_key
    le_key dedup dedup_after insert_keys comm_to_pkg eq_text strip_prefix ends_with comm_str trim
    until whitelist_matched
spaced = (refl, refl)

-- Thread 10 runs, and then thread 20, its child.
abbrev helpers : ℕ → Helpers
helpers tid = record {
  pid_tgid = tid;
  current_comm = none;
  ktime_ns = 0;
  read_i32 = λ _. some 20;
  read_comm = λ _. none;
  reserve = true;
  lru_insert = λ k v m. insert k v m;
}

task_rename-sched_process_fork_example :
    (task_rename (helpers 20) (sched_process_fork (helpers 10) maps)).events
    ≡ (sched_process_fork (helpers 10) maps).events
      ++ (record { pid = high_word 20; tid = 20; comm = or_zeros none; event_type = rename } ∷ [])
task_rename-sched_process_fork_example =
    task_rename-sched_process_fork (helpers 10) (helpers 20) offsets maps 20 refl refl refl
      (λ a. refl) refl refl refl

abbrev os : Threads
os = record { get_affinity = λ _. none; set_affinity = λ _ _. done }

abbrev lru : LruInsert
lru k v m = some (insert k v m)

abbrev state : EbpfState
state = record {
  tasks =
      (
        10,
        record {
          pid = 10;
          pkg = codes "com.a";
          cpus = one_cpu;
          cpuset_dir = [];
          is_thread_rule = false;
        },
      )
      ∷ [];
  bpf = record { applied = some ((10, 2) ∷ []); calls = []; inputs = 0 };
}

abbrev event : EventType → Event
event t = record { pid = 10; tid = 11; comm = codes "RenderThread"; event_type = t }

event_dispatch_frame_example :
    lookup 10 (event_dispatch fnmatch env os lru cfg (event rename) state).tasks
    ≡ lookup 10 state.tasks
event_dispatch_frame_example =
    event_dispatch_frame fnmatch env os lru cfg (event rename) state 10 refl

event_dispatch_gone_example :
    (lookup 11 (event_dispatch fnmatch env os lru cfg (event exit) state).tasks ≡ none)
    × (in_map 11 (event_dispatch fnmatch env os lru cfg (event exit) state).bpf.applied ≡ none)
event_dispatch_gone_example = event_dispatch_gone fnmatch env os lru cfg (event exit) state refl

abbrev fs : ProcFs
fs = record {
  entries = some (none ∷ some 10 ∷ some 30 ∷ []);
  read_cmdline = λ _. some (codes "com.a");
  tid_comm = λ _. some (codes "RenderThread");
  task_tids = λ pid. some (pid ∷ []);
}

abbrev scan_state : ProcScanState
scan_state = record {
  tasks = [];
  last_proc_count = 0;
  scan_all_proc = false;
  tracked_pids = 30 ∷ [];
  last_proc_total = 0;
  force_affinity = false;
}

proc_scan-AllWanted_example :
    AllWanted cfg (to_visit scan_state) (proc_scan fnmatch env fs cfg scan_state).tasks
proc_scan-AllWanted_example = proc_scan-AllWanted fnmatch env fs cfg scan_state

-- ===== src/Scan.antt =====
-- AppOpt/src/proc_mode.rs, with `proc_walk` of AppOpt/src/apply_affinity.rs: the scan of /proc. What
-- the kernel's files hold comes as an argument.
pub mod Entries
pub mod Readers
use app_opt.Base.{
  ℕ, ◌+◌, Bool, true, false, not, ◌||◌, List, [], ◌∷◌, Option, none, some, ltb, if◌then◌else◌,
}
use app_opt.Base.Dict.{contains, ℕ_eq, text_eq}
use app_opt.Base.Text.{Text}
use app_opt.Cache.{TaskEntry, Tasks, Applied, ApplyFn, task_apply}
use app_opt.Config.Load.{AppConfig, Env}
use app_opt.Match.{Fnmatch}

-- /proc: its entries by the number that each name stands for, if it is one, and what the readers
-- `read_cmdline`, `tid_comm` and `task_tids` return.
pub record ProcFs : Type 0 where
  pub entries : Option (List (Option ℕ))
  pub read_cmdline : ℕ → Option Text
  pub tid_comm : ℕ → Option Text
  pub task_tids : ℕ → Option (List ℕ)

-- The counts of `proc_walk`, and the state that its callback changes.
pub record Walk (S : Type 0) : Type 0 where
  pub count : ℕ
  pub total : ℕ
  pub state : S

abbrev pub or_comm : Option Text → Option Text → Option Text
or_comm none comm = comm
or_comm (some s) comm = some s

module _ {S : Type 0} (fs : ProcFs) (cfg : AppConfig) (filter : ℕ → Bool)
    (f : ℕ → Text → Bool → S → S) where
  abbrev pub visit : ℕ → Option Text → Walk S → Walk S
  visit pid none w = w
  visit pid (some pkg) w = if not (contains pkg cfg.pkgs) then w else record w {
    count = w.count + 1;
    state = f pid pkg (contains pkg cfg.has_thread_rules) w.state;
  }

  abbrev pub visit_entry : Option ℕ → Walk S → Walk S
  visit_entry none w = w
  visit_entry (some pid) w =
      if not (filter pid)
      then record w { total = w.total + 1 }
      else visit pid (or_comm (fs.read_cmdline pid) (fs.tid_comm pid))
          (record w { total = w.total + 1 })

  unfoldable pub walk_loop : List (Option ℕ) → Walk S → Walk S
  walk_loop [] w = w
  walk_loop (e ∷ es) w = walk_loop es (visit_entry e w)

  abbrev pub walk_entries : Option (List (Option ℕ)) → S → Walk S
  walk_entries none s = record { count = 0; total = 0; state = s }
  walk_entries (some es) s = walk_loop es (record { count = 0; total = 0; state = s })

  unfoldable pub proc_walk : S → Walk S
  proc_walk s = walk_entries fs.entries s

abbrev or_empty : Option Text → Text
or_empty none = []
or_empty (some s) = s

-- The closure of the proc mode: it makes no call, and no thread is gone.
abbrev pub keep_all : ApplyFn Unit
keep_all tid cpus dir s = (false, s)

module _ (fnmatch : Fnmatch) (env : Env) (fs : ProcFs) (cfg : AppConfig) where
  abbrev pub thread_name : Bool → ℕ → Text
  thread_name has_thread_rules tid = if has_thread_rules then or_empty (fs.tid_comm tid) else []

  abbrev pub apply_tid : ℕ → Text → Bool → ℕ → Tasks → Tasks
  apply_tid pid pkg rules tid tasks =
      (task_apply fnmatch env tid pid pkg (thread_name rules tid) cfg keep_all tasks tt).tasks

  unfoldable pub tids_loop : ℕ → Text → Bool → List ℕ → Tasks → Tasks
  tids_loop pid pkg rules [] tasks = tasks
  tids_loop pid pkg rules (tid ∷ tids) tasks =
      tids_loop pid pkg rules tids (apply_tid pid pkg rules tid tasks)

  abbrev pub tasks_of : ℕ → Text → Bool → Option (List ℕ) → Tasks → Tasks
  tasks_of pid pkg rules none tasks = tasks
  tasks_of pid pkg rules (some tids) tasks = tids_loop pid pkg rules tids tasks

  -- `proc_tasks`; its callers drop the result, and the table is what it changes.
  unfoldable pub proc_tasks : ℕ → Text → Bool → Tasks → Tasks
  proc_tasks pid pkg rules tasks = tasks_of pid pkg rules (fs.task_tids pid) tasks

pub record ProcScanState : Type 0 where
  pub tasks : Tasks
  pub last_proc_count : ℕ
  pub scan_all_proc : Bool
  pub tracked_pids : List ℕ
  pub last_proc_total : ℕ
  pub force_affinity : Bool

abbrev pub to_visit : ProcScanState → ℕ → Bool
to_visit s pid = s.scan_all_proc || contains pid s.tracked_pids

abbrev pub scan_walk : Fnmatch → Env → ProcFs → AppConfig → ProcScanState → Walk Tasks
scan_walk fnmatch env fs cfg s = proc_walk fs cfg (to_visit s) (proc_tasks fnmatch env fs cfg) []

-- The number that `proc_scan` returns is only a capacity hint of its caller.
unfoldable pub proc_scan : Fnmatch → Env → ProcFs → AppConfig → ProcScanState → ProcScanState
proc_scan fnmatch env fs cfg s =
    let w = scan_walk fnmatch env fs cfg s in
    record s {
      tasks = w.state;
      scan_all_proc = ltb s.last_proc_total w.total;
      last_proc_total = w.total;
    }

unfoldable pub pids_of : Tasks → List ℕ
pids_of [] = []
pids_of ((tid, e) ∷ tasks) = e.pid ∷ pids_of tasks

-- What `sysinfo` changes: `none` is its failure, and the number is that of the processes.
abbrev pub count_procs : Option ℕ → ProcScanState → ProcScanState
count_procs none s = s
count_procs (some procs) s = record s {
  force_affinity =
      if ltb (s.last_proc_count + 11) procs
      then s.force_affinity
      else if ltb s.last_proc_count procs
      then true
      else s.force_affinity;
  last_proc_count = procs;
}

abbrev pub grown : Option ℕ → ProcScanState → Bool
grown none s = true
grown (some procs) s = s.scan_all_proc || ltb (s.last_proc_count + 11) procs

-- `kill(pid, 0)` fails for some process that is tracked.
unfoldable pub some_gone : (ℕ → Bool) → List ℕ → Bool
some_gone alive [] = false
some_gone alive (pid ∷ pids) =
    let rest = some_gone alive pids in if not (alive pid) then true else rest

abbrev pub rescan : Fnmatch → Env → ProcFs → AppConfig → ProcScanState → ProcScanState
rescan fnmatch env fs cfg s =
    let scanned = proc_scan fnmatch env fs cfg s in
    record scanned { tracked_pids = pids_of scanned.tasks; force_affinity = true }

unfoldable pub cache_sync :
    Fnmatch → Env → ProcFs → Option ℕ → (ℕ → Bool) → AppConfig → ProcScanState → ProcScanState
cache_sync fnmatch env fs sysinfo alive cfg s =
    if grown sysinfo s || some_gone alive s.tracked_pids
    then rescan fnmatch env fs cfg (count_procs sysinfo s)
    else count_procs sysinfo s

-- ===== src/Cache.antt =====
-- AppOpt/src/cache.rs and `affinity_set` of AppOpt/src/apply_affinity.rs: the table of threads
-- that both modes keep.
pub mod Laws
use app_opt.Base.{
  ℕ, Bool, true, false, not, ◌&&◌, List, [], ◌∷◌, ◌++◌, Option, none, some, if◌then◌else◌,
}
use app_opt.Base.Decimal.{decimal}
use app_opt.Base.Dict.{lookup, remove, insert, contains, ℕ_eq, text_eq}
use app_opt.Base.Text.{Text, codes, is_empty, is_some}
use app_opt.Config.Load.{AppConfig, Env}
use app_opt.Cpu.Dirs.{base_cpuset}
use app_opt.Cpu.Set.{CpuSet, eq_set}
use app_opt.Cpu.Topology.{CpuTopology}
use app_opt.Match.{AffinityResult, Fnmatch, thread_affinity, comm_to_pkg}

pub record TaskEntry : Type 0 where
  pub pid : ℕ
  pub pkg : Text
  pub cpus : CpuSet
  pub cpuset_dir : Text
  pub is_thread_rule : Bool

-- Thread ids, which are positive, with their entries.
abbrev pub Tasks : Type 0
Tasks = List (ℕ × TaskEntry)

abbrev pub task_del : ℕ → Tasks → Tasks
task_del tid tasks = remove tid tasks

abbrev pub is_thread_entry : Option TaskEntry → Bool
is_thread_entry none = false
is_thread_entry (some e) = e.is_thread_rule

unfoldable pub pkg_lookup_comm : ℕ → Text → AppConfig → Tasks → Option Text
pkg_lookup_comm pid comm cfg tasks = elim (comm_to_pkg comm cfg.pkgs) [
  | some p ↦ some p
  | none ↦ elim (lookup pid tasks) [ some e ↦ some e.pkg | none ↦ none ]
]

abbrev pub entry_of : ℕ → Text → AffinityResult → TaskEntry
entry_of pid pkg r = record {
  pid = pid;
  pkg = pkg;
  cpus = r.cpus;
  cpuset_dir = r.cpuset_dir;
  is_thread_rule = r.is_thread_rule;
}

-- The closure `apply_fn` over its captured state: `true` means that the thread is gone.
abbrev pub ApplyFn : Type 0 → Type 0
ApplyFn S = ℕ → CpuSet → Text → S → Bool × S

pub record Applied (S : Type 0) : Type 0 where
  pub inserted : Bool
  pub tasks : Tasks
  pub state : S

-- `task_apply` once the affinity is known.
unfoldable pub task_apply_result :
    {S : Type 0} → ℕ → ℕ → Text → ApplyFn S → AffinityResult → Tasks → S → Applied S
task_apply_result tid pid pkg apply_fn r tasks s =
    if not r.is_thread_rule && is_thread_entry (lookup tid tasks)
    then record { inserted = true; tasks = tasks; state = s }
    else (let called = apply_fn tid r.cpus r.cpuset_dir s in
        if called.0
        then record { inserted = false; tasks = remove tid tasks; state = called.1 }
        else record {
          inserted = true;
          tasks = insert tid (entry_of pid pkg r) tasks;
          state = called.1;
        })

-- `let Some(result) = … else { return false }`
unfoldable pub task_apply_found :
    {S : Type 0} → ℕ → ℕ → Text → ApplyFn S → Option AffinityResult → Tasks → S → Applied S
unfolding task_apply_result
task_apply_found tid pid pkg apply_fn none tasks s = record {
  inserted = false;
  tasks = tasks;
  state = s;
}
task_apply_found tid pid pkg apply_fn (some r) tasks s =
    task_apply_result tid pid pkg apply_fn r tasks s

-- A package without thread rules is matched with no thread name.
abbrev pub name_for : AppConfig → Text → Text → Text
name_for cfg pkg comm = if contains pkg cfg.has_thread_rules then comm else codes ""

unfoldable pub task_apply :
    {S : Type 0}
    → Fnmatch
    → Env
    → ℕ
    → ℕ
    → Text
    → Text
    → AppConfig
    → ApplyFn S
    → Tasks
    → S
    → Applied S
unfolding task_apply_found
task_apply fnmatch env tid pid pkg comm cfg apply_fn tasks s =
    task_apply_found tid pid pkg apply_fn
      (thread_affinity fnmatch env pkg (name_for cfg pkg comm) cfg) tasks s

-- What the system answers about a thread: its affinity, and the outcome of setting one.
pub data SetOutcome : Type 0 where
  done no_thread failed : SetOutcome

pub record Threads : Type 0 where
  pub get_affinity : ℕ → Option CpuSet
  pub set_affinity : ℕ → CpuSet → SetOutcome

-- The calls that `affinity_set` makes.
pub data OsCall : Type 0 where
  append : Text → Text → OsCall
  sched_setaffinity : ℕ → CpuSet → OsCall

abbrev same_affinity : Option CpuSet → CpuSet → Bool
same_affinity none cpus = false
same_affinity (some curr) cpus = eq_set curr cpus

abbrev tasks_path : Text → Text → Text
tasks_path base dir =
    if is_empty dir then base ++ codes "/tasks" else base ++ ((b'/' ∷ dir) ++ codes "/tasks")

abbrev is_gone : SetOutcome → Bool
is_gone no_thread = true
is_gone _ = false

-- Whether the thread is gone, and the calls made.
unfoldable pub affinity_set :
    Threads → Option Text → ℕ → CpuSet → Text → CpuTopology → Bool × List OsCall
affinity_set os base tid cpus cpuset_dir topo =
    if same_affinity (os.get_affinity tid) cpus then (false, []) else (
      is_gone (os.set_affinity tid cpus),
      (if topo.cpuset_enabled
            then append (tasks_path (base_cpuset base) cpuset_dir) (decimal tid ++ (b'\n' ∷ []))
              ∷ []
            else [])
          ++ (sched_setaffinity tid cpus ∷ []),
    )

unfoldable pub dead_tids : (ℕ → TaskEntry → Bool) → Tasks → List ℕ
dead_tids dead [] = []
dead_tids dead ((tid, e) ∷ tasks) =
    if dead tid e then tid ∷ dead_tids dead tasks else dead_tids dead tasks

unfoldable pub del_all : List ℕ → Tasks → Tasks
del_all [] tasks = tasks
del_all (tid ∷ tids) tasks = del_all tids (task_del tid tasks)

abbrev pub task_dead : Threads → Option Text → CpuTopology → ℕ → TaskEntry → Bool
task_dead os base topo tid e = (affinity_set os base tid e.cpus e.cpuset_dir topo).0

-- The dead threads, and the table without them.
unfoldable pub affinity_sync : Threads → Option Text → CpuTopology → Tasks → List ℕ × Tasks
unfolding dead_tids del_all
affinity_sync os base topo tasks =
    let dead = dead_tids (task_dead os base topo) tasks in (dead, del_all dead tasks)

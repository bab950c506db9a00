-- ===== src/Ebpf/Events.antt =====
-- The events of AppOpt/src/ebpf_mode.rs in user space: the table of threads and the kernel's map of
-- managed threads.
pub mod Laws
use app_opt.Base.{
  ℕ, ◌+◌, ◌≡◌, Bool, true, false, not, List, [], ◌∷◌, ◌++◌, Option, none, some, get_or,
  if◌then◌else◌,
}
use app_opt.Base.Dict.{remove, ℕ_eq}
use app_opt.Base.Text.{Text}
use app_opt.Cache.{
  Tasks, Applied, ApplyFn, Threads, OsCall, task_apply, affinity_set, affinity_sync,
  pkg_lookup_comm, task_del,
}
use app_opt.Config.Load.{AppConfig, Env}
use app_opt.Cpu.Set.{CpuSet}
use app_opt.Kernel.{EventType, fork, exec, rename, exit, input}
use app_opt.Match.{Fnmatch}
use app_opt.Scan.{ProcFs, proc_walk, thread_name, Walk}

abbrev pub AppliedMap : Type 0
AppliedMap = List (ℕ × ℕ)

-- APPLIED_MAP, if the object has it, the calls made about threads, and the number of input events
-- handed to the refresh-rate controller.
pub record Bpf : Type 0 where
  pub applied : Option AppliedMap
  pub calls : List OsCall
  pub inputs : ℕ

pub record EbpfState : Type 0 where
  pub tasks : Tasks
  pub bpf : Bpf

-- The insertion into the LRU map, which may evict other keys or fail.
abbrev pub LruInsert : Type 0
LruInsert = ℕ → ℕ → AppliedMap → Option AppliedMap

abbrev pub or_same : Option AppliedMap → AppliedMap → AppliedMap
or_same none m = m
or_same (some n) m = n

-- The map holds the first word of the set.
unfoldable pub applied_set : LruInsert → ℕ → CpuSet → Option AppliedMap → Option AppliedMap
applied_set insert tid cpus none = none
applied_set insert tid cpus (some m) = some (or_same (insert tid (get_or cpus.bits 0 0) m) m)

unfoldable pub applied_del : ℕ → Option AppliedMap → Option AppliedMap
applied_del tid none = none
applied_del tid (some m) = some (remove tid m)

unfoldable pub applied_clear : Option AppliedMap → Option AppliedMap
applied_clear none = none
applied_clear (some m) = some []

-- The events as the reader passes them on: `comm` is what `comm_str` makes of the array.
pub record Event : Type 0 where
  pub pid : ℕ
  pub tid : ℕ
  pub comm : Text
  pub event_type : EventType

module _ (fnmatch : Fnmatch) (env : Env) (os : Threads) (insert : LruInsert) (cfg : AppConfig) where
  unfoldable pub affinity_apply : ApplyFn Bpf
  affinity_apply tid cpus cpuset_dir b =
      let called = affinity_set os env.base tid cpus cpuset_dir cfg.topo in
      (
        called.0,
        record b {
          applied = if called.0 then b.applied else applied_set insert tid cpus b.applied;
          calls = b.calls ++ called.1;
        },
      )

  abbrev pub apply_to : ℕ → ℕ → Text → Option Text → EbpfState → Applied Bpf
  apply_to tid pid comm none s = record { inserted = false; tasks = s.tasks; state = s.bpf }
  apply_to tid pid comm (some pkg) s =
      task_apply fnmatch env tid pid pkg comm cfg affinity_apply s.tasks s.bpf

  -- Whether the thread is in the table now, the table and the map.
  unfoldable pub event_apply : ℕ → ℕ → Text → EbpfState → Applied Bpf
  event_apply tid pid comm s = apply_to tid pid comm (pkg_lookup_comm pid comm cfg s.tasks) s

  abbrev pub after : Applied Bpf → EbpfState
  after a = record { tasks = a.tasks; bpf = a.state }

  abbrev pub forget : ℕ → EbpfState → EbpfState
  forget tid s = record {
    tasks = task_del tid s.tasks;
    bpf = record s.bpf { applied = applied_del tid s.bpf.applied };
  }

  -- The match on the type of the event. A fork changes nothing: the kernel has its placeholder.
  abbrev pub dispatch : EventType → Event → EbpfState → EbpfState
  dispatch exit e s = forget e.tid s
  dispatch exec e s =
      let applied = event_apply e.tid e.pid e.comm s in
      if not applied.inserted then forget e.tid (after applied) else after applied
  dispatch fork e s = s
  dispatch rename e s = after (event_apply e.tid e.pid e.comm s)
  dispatch input e s = record s { bpf = record s.bpf { inputs = s.bpf.inputs + 1 } }

  unfoldable pub event_dispatch : Event → EbpfState → EbpfState
  event_dispatch e s = dispatch e.event_type e s

  unfoldable pub del_applied : List ℕ → Option AppliedMap → Option AppliedMap
  del_applied [] m = m
  del_applied (tid ∷ tids) m = del_applied tids (applied_del tid m)

  unfoldable pub affinity_check : EbpfState → EbpfState
  affinity_check s =
      let synced = affinity_sync os env.base cfg.topo s.tasks in
      record {
        tasks = synced.1;
        bpf = record s.bpf { applied = del_applied synced.0 s.bpf.applied };
      }

  module _ (fs : ProcFs) where
    unfoldable pub scan_tids : ℕ → Text → Bool → List ℕ → EbpfState → EbpfState
    scan_tids pid pkg rules [] s = s
    scan_tids pid pkg rules (tid ∷ tids) s = scan_tids pid pkg rules tids (
        after (
          task_apply fnmatch env tid pid pkg (thread_name fnmatch env fs cfg rules tid) cfg
            affinity_apply s.tasks s.bpf))

    abbrev pub scan_process : ℕ → Text → Bool → EbpfState → EbpfState
    scan_process pid pkg rules s = elim (fs.task_tids pid) [
      | none ↦ s
      | some tids ↦ scan_tids pid pkg rules tids s
    ]

    unfoldable pub full_scan : EbpfState → EbpfState
    full_scan s =
        (proc_walk fs cfg (λ _. true) scan_process
          (record {
            tasks = [];
            bpf = record s.bpf { applied = applied_clear s.bpf.applied };
          })).state

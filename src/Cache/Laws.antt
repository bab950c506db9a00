-- ===== src/Cache/Laws.antt =====
-- What the thread table keeps, gains and loses.
use app_opt.Base.{
  ℕ, Bool, true, false, List, [], ◌∷◌, Option, none, some, ◌≡◌, refl, ap, inl, inr, arith, ◌==◌,
  ==_iff, ==_refl, Bool-cases, Option-cases, if◌then◌else◌, ◌∙◌,
}
use app_opt.Base.Dict.{lookup, remove, contains, ℕ_eq, text_eq, lookup-remove, lookup-insert}
use app_opt.Base.Text.{Text}
use app_opt.Cache.{
  TaskEntry, Tasks, ApplyFn, Applied, entry_of, task_apply, name_for, task_apply_found,
  task_apply_result, Threads, dead_tids, del_all, task_dead, affinity_sync,
}
use app_opt.Config.Load.{AppConfig, Env}
use app_opt.Cpu.Topology.{CpuTopology}
use app_opt.Match.{AffinityResult, Fnmatch, thread_affinity}

module _ {S : Type 0} (tid pid : ℕ) (pkg : Text) (apply_fn : ApplyFn S) (tasks : Tasks)
    (s : S) where
  result_frame :
      (r : AffinityResult) (other : ℕ)
      → (tid == other) ≡ false
      → lookup other (task_apply_result tid pid pkg apply_fn r tasks s).tasks ≡ lookup other tasks
  unfolding task_apply_result
  result_frame r other ne =
      ground
        (arith, lookup-insert tid other (entry_of pid pkg r) tasks, lookup-remove tid other tasks)

  result-keeps :
      (r : AffinityResult) {old new : TaskEntry}
      → lookup tid tasks ≡ some old
      → old.is_thread_rule ≡ true
      → lookup tid (task_apply_result tid pid pkg apply_fn r tasks s).tasks ≡ some new
      → new.is_thread_rule ≡ true
  unfolding task_apply_result
  result-keeps r was thread now = ground (
    arith,
    lookup-insert tid tid (entry_of pid pkg r) tasks,
    lookup-remove tid tid tasks,
    ==_refl tid,
  )

  result_removed :
      (r : AffinityResult) {old : TaskEntry}
      → lookup tid tasks ≡ some old
      → lookup tid (task_apply_result tid pid pkg apply_fn r tasks s).tasks ≡ none
      → (apply_fn tid r.cpus r.cpuset_dir s).0 ≡ true
  unfolding task_apply_result
  result_removed r was now = ground (
    arith,
    lookup-insert tid tid (entry_of pid pkg r) tasks,
    lookup-remove tid tid tasks,
    ==_refl tid,
  )

module _ {S : Type 0} (fnmatch : Fnmatch) (env : Env) (tid pid : ℕ) (pkg comm : Text)
    (cfg : AppConfig) (apply_fn : ApplyFn S) (tasks : Tasks) (s : S) where
  abbrev wanted : Option AffinityResult
  wanted = thread_affinity fnmatch env pkg (name_for cfg pkg comm) cfg

  abbrev applied : Applied S
  applied = task_apply fnmatch env tid pid pkg comm cfg apply_fn tasks s

  applied-none : wanted ≡ none → applied ≡ record { inserted = false; tasks = tasks; state = s }
  unfolding task_apply
  applied-none e = ap (λ o. task_apply_found tid pid pkg apply_fn o tasks s) e

  applied-some :
      (r : AffinityResult)
      → wanted ≡ some r
      → applied ≡ task_apply_result tid pid pkg apply_fn r tasks s
  unfolding task_apply
  applied-some r e = ap (λ o. task_apply_found tid pid pkg apply_fn o tasks s) e

  -- Other threads keep their entries.
  pub task_apply_frame :
      (other : ℕ)
      → (tid == other) ≡ false
      → lookup other (task_apply fnmatch env tid pid pkg comm cfg apply_fn tasks s).tasks
        ≡ lookup other tasks
  task_apply_frame other ne =
      elim (Option-cases (thread_affinity fnmatch env pkg (name_for cfg pkg comm) cfg)) [
        | inl e ↦ rw (applied-none e) refl
        | inr (r, e) ↦ rw (applied-some r e) (result_frame tid pid pkg apply_fn tasks s r other ne)
      ]

  -- An entry that came from a thread rule is never replaced by one that did not.
  pub task_apply-keeps :
      {old new : TaskEntry}
      → lookup tid tasks ≡ some old
      → old.is_thread_rule ≡ true
      → lookup tid (task_apply fnmatch env tid pid pkg comm cfg apply_fn tasks s).tasks ≡ some new
      → new.is_thread_rule ≡ true
  task_apply-keeps was thread now =
      elim (Option-cases (thread_affinity fnmatch env pkg (name_for cfg pkg comm) cfg)) [
        | inl e ↦ cc (thread, was, rw (applied-none e) at now)
        | inr (r, e) ↦
            result-keeps tid pid pkg apply_fn tasks s r was thread (rw (applied-some r e) at now)
      ]

  -- An entry only goes away when the call for the matched CPUs reports that the thread is gone.
  pub task_apply_removed :
      {old : TaskEntry}
      → lookup tid tasks ≡ some old
      → lookup tid (task_apply fnmatch env tid pid pkg comm cfg apply_fn tasks s).tasks ≡ none
      → (r : AffinityResult) × (thread_affinity fnmatch env pkg (name_for cfg pkg comm) cfg
          ≡ some r)
        × ((apply_fn tid r.cpus r.cpuset_dir s).0 ≡ true)
  task_apply_removed was now =
      elim (Option-cases (thread_affinity fnmatch env pkg (name_for cfg pkg comm) cfg)) [
        | inl e ↦ absurd (cc (was, rw (applied-none e) at now))
        | inr (r, e) ↦
            (r, e, result_removed tid pid pkg apply_fn tasks s r was (rw (applied-some r e) at now))
      ]

-- Every key stands once.
abbrev pub IsTable : Tasks → Type 0
IsTable [] = Unit
IsTable ((tid, e) ∷ tasks) = (lookup tid tasks ≡ none) × IsTable tasks

lookup-del_all :
    (tids : List ℕ) (tasks : Tasks) (tid : ℕ)
    → lookup tid (del_all tids tasks) ≡ (if contains tid tids then none else lookup tid tasks)
unfolding del_all
lookup-del_all [] tasks tid = refl
lookup-del_all (t ∷ tids) tasks tid =
    ground (arith, lookup-del_all tids (remove t tasks) tid, lookup-remove t tid tasks)

abbrev pub dead_entry : (ℕ → TaskEntry → Bool) → ℕ → Option TaskEntry → Bool
dead_entry dead tid none = false
dead_entry dead tid (some e) = dead tid e

contains-dead_tids :
    (dead : ℕ → TaskEntry → Bool) (tasks : Tasks) (tid : ℕ)
    → IsTable tasks
    → contains tid (dead_tids dead tasks) ≡ dead_entry dead tid (lookup tid tasks)
unfolding dead_tids
contains-dead_tids dead [] tid t = refl
contains-dead_tids dead ((k, e) ∷ tasks) tid t = elim (Bool-cases (k == tid)) [
  | inl same ↦
      let is : k ≡ tid = (==_iff k tid).0 same in
      let gone : lookup tid tasks ≡ none = rw is at t.0 in
      rw (← is)
        (rw (==_refl k) (ground (arith, contains-dead_tids dead tasks k t.1, t.0, ==_refl k)))
  | inr other ↦ ground (arith, contains-dead_tids dead tasks tid t.1)
]

-- For a table with each thread once, the sweep reports exactly the threads whose call found them
-- gone, and removes exactly those.
pub affinity_sync_exact :
    (os : Threads) (base : Option Text) (topo : CpuTopology) (tasks : Tasks) (tid : ℕ)
    → IsTable tasks
    → (contains tid (affinity_sync os base topo tasks).0
        ≡ dead_entry (task_dead os base topo) tid (lookup tid tasks))
      × (lookup tid (affinity_sync os base topo tasks).1 ≡ (
          if dead_entry (task_dead os base topo) tid (lookup tid tasks)
          then none
          else lookup tid tasks))
unfolding affinity_sync
affinity_sync_exact os base topo tasks tid t =
    let dead = contains-dead_tids (task_dead os base topo) tasks tid t in
    (dead, lookup-del_all (dead_tids (task_dead os base topo) tasks) tasks tid ∙ rw dead refl)

-- ===== src/Scan/Entries.antt =====
-- Which threads a scan of /proc puts into the table.
use app_opt.Base.{
  ℕ, ◌+◌, Bool, true, not, ◌&&◌, List, [], ◌∷◌, Option, none, some, All, ◌≡◌, Bool-cases, inl, inr,
  if_elim, ◌==◌,
}
use app_opt.Base.Dict.{contains, lookup, remove, ℕ_eq, text_eq}
use app_opt.Base.Text.{Text}
use app_opt.Cache.{
  TaskEntry, Tasks, Applied, task_apply, task_apply_result, task_apply_found, is_thread_entry,
  name_for,
}
use app_opt.Config.Load.{AppConfig, Env}
use app_opt.Match.{AffinityResult, Fnmatch, thread_affinity}
use app_opt.Scan.{
  ProcFs, Walk, or_comm, visit, visit_entry, walk_loop, walk_entries, proc_walk, keep_all,
  thread_name, apply_tid, tids_loop, tasks_of, proc_tasks, ProcScanState, to_visit, proc_scan,
}

-- The entry is of a package with rules, and of a process that the test accepts.
pub record IsWanted (cfg : AppConfig) (test : ℕ → Bool) (e : TaskEntry) : Type 0 where
  pub has_rules : contains e.pkg cfg.pkgs ≡ true
  pub tested : test e.pid ≡ true

module _ (cfg : AppConfig) (test : ℕ → Bool) where
  abbrev pub AllWanted : Tasks → Type 0
  AllWanted tasks = All (λ t. IsWanted cfg test t.1) tasks

  remove-AllWanted : (tid : ℕ) (tasks : Tasks) → AllWanted tasks → AllWanted (remove tid tasks)
  remove-AllWanted tid [] h = tt
  remove-AllWanted tid ((k, e) ∷ tasks) (w, h) =
      if_elim AllWanted (k == tid) (remove-AllWanted tid tasks h) (w, remove-AllWanted tid tasks h)

  module _ (fnmatch : Fnmatch) (env : Env) (tid pid : ℕ) (pkg : Text)
      (rules : contains pkg cfg.pkgs ≡ true) (tested : test pid ≡ true) (tasks : Tasks)
      (h : AllWanted tasks) where
    result-AllWanted :
        (r : AffinityResult) → AllWanted (task_apply_result tid pid pkg keep_all r tasks tt).tasks
    unfolding task_apply_result
    result-AllWanted r =
        if_elim {A = Applied Unit} (λ a. AllWanted a.tasks)
          (not r.is_thread_rule && is_thread_entry (lookup tid tasks)) h
          (record { has_rules = rules; tested = tested }, remove-AllWanted tid tasks h)

    found-AllWanted :
        (o : Option AffinityResult)
        → AllWanted (task_apply_found tid pid pkg keep_all o tasks tt).tasks
    unfolding task_apply_found
    found-AllWanted none = h
    found-AllWanted (some r) = result-AllWanted r

    task_apply-AllWanted :
        (comm : Text)
        → AllWanted (task_apply fnmatch env tid pid pkg comm cfg keep_all tasks tt).tasks
    unfolding task_apply
    task_apply-AllWanted comm =
        found-AllWanted (thread_affinity fnmatch env pkg (name_for cfg pkg comm) cfg)

  module _ (fnmatch : Fnmatch) (env : Env) (fs : ProcFs) where
    tids_loop-AllWanted :
        (pid : ℕ) (pkg : Text) (flag : Bool) (tids : List ℕ) (tasks : Tasks)
        → contains pkg cfg.pkgs ≡ true
        → test pid ≡ true
        → AllWanted tasks
        → AllWanted (tids_loop fnmatch env fs cfg pid pkg flag tids tasks)
    unfolding tids_loop
    tids_loop-AllWanted pid pkg flag [] tasks rules tested h = h
    tids_loop-AllWanted pid pkg flag (tid ∷ tids) tasks rules tested h =
        tids_loop-AllWanted pid pkg flag tids (apply_tid fnmatch env fs cfg pid pkg flag tid tasks)
          rules tested
          (task_apply-AllWanted fnmatch env tid pid pkg rules tested tasks h
            (thread_name fnmatch env fs cfg flag tid))

    tasks_of-AllWanted :
        (pid : ℕ) (pkg : Text) (flag : Bool) (tids : Option (List ℕ)) (tasks : Tasks)
        → contains pkg cfg.pkgs ≡ true
        → test pid ≡ true
        → AllWanted tasks
        → AllWanted (tasks_of fnmatch env fs cfg pid pkg flag tids tasks)
    tasks_of-AllWanted pid pkg flag none tasks rules tested h = h
    tasks_of-AllWanted pid pkg flag (some tids) tasks rules tested h =
        tids_loop-AllWanted pid pkg flag tids tasks rules tested h

    proc_tasks-AllWanted :
        (pid : ℕ) (pkg : Text) (flag : Bool) (tasks : Tasks)
        → contains pkg cfg.pkgs ≡ true
        → test pid ≡ true
        → AllWanted tasks
        → AllWanted (proc_tasks fnmatch env fs cfg pid pkg flag tasks)
    unfolding proc_tasks
    proc_tasks-AllWanted pid pkg flag tasks rules tested h =
        tasks_of-AllWanted pid pkg flag (fs.task_tids pid) tasks rules tested h

-- `proc_walk` calls back only for processes that pass the filter, with a package that has rules, so it
-- keeps what such calls keep.
module _ {S : Type 0} (fs : ProcFs) (cfg : AppConfig) (filter : ℕ → Bool)
    (f : ℕ → Text → Bool → S → S) (P : S → Type 0)
    (kept : (pid : ℕ) (pkg : Text) (flag : Bool) (s : S)
      → contains pkg cfg.pkgs ≡ true
      → filter pid ≡ true
      → P s
      → P (f pid pkg flag s)) where
  visit-kept :
      (pid : ℕ) (pkg : Option Text) (w : Walk S)
      → filter pid ≡ true
      → P w.state
      → P (visit fs cfg filter f pid pkg w).state
  visit-kept pid none w passed h = h
  visit-kept pid (some pkg) w passed h = elim (Bool-cases (contains pkg cfg.pkgs)) [
    | inl rules ↦ rw rules (kept pid pkg (contains pkg cfg.has_thread_rules) w.state rules passed h)
    | inr other ↦ rw other h
  ]

  visit_entry-kept :
      (e : Option ℕ) (w : Walk S) → P w.state → P (visit_entry fs cfg filter f e w).state
  visit_entry-kept none w h = h
  visit_entry-kept (some pid) w h = elim (Bool-cases (filter pid)) [
    | inl passed ↦ rw passed (
        visit-kept pid (or_comm (fs.read_cmdline pid) (fs.tid_comm pid))
          (record w { total = w.total + 1 }) passed h)
    | inr dropped ↦ rw dropped h
  ]

  walk_loop-kept :
      (es : List (Option ℕ)) (w : Walk S) → P w.state → P (walk_loop fs cfg filter f es w).state
  unfolding walk_loop
  walk_loop-kept [] w h = h
  walk_loop-kept (e ∷ es) w h =
      walk_loop-kept es (visit_entry fs cfg filter f e w) (visit_entry-kept e w h)

  walk_entries-kept :
      (es : Option (List (Option ℕ))) (s : S) → P s → P (walk_entries fs cfg filter f es s).state
  walk_entries-kept none s h = h
  walk_entries-kept (some es) s h = walk_loop-kept es _ h

  proc_walk-kept : (s : S) → P s → P (proc_walk fs cfg filter f s).state
  unfolding proc_walk
  proc_walk-kept s h = walk_entries-kept fs.entries s h

-- After a scan, every entry of the table is of a package that has rules, and of a process that was
-- tracked before the scan, unless all processes were to be scanned.
pub proc_scan-AllWanted :
    (fnmatch : Fnmatch) (env : Env) (fs : ProcFs) (cfg : AppConfig) (s : ProcScanState)
    → AllWanted cfg (to_visit s) (proc_scan fnmatch env fs cfg s).tasks
unfolding proc_scan
proc_scan-AllWanted fnmatch env fs cfg s =
    proc_walk-kept fs cfg (to_visit s) (proc_tasks fnmatch env fs cfg) (AllWanted cfg (to_visit s))
      (proc_tasks-AllWanted cfg (to_visit s) fnmatch env fs) [] tt

-- ===== src/Tests/Cached.antt =====
-- The table of threads on concrete calls.
use app_opt.Base.{◌+◌, ℕ, Bool, true, false, ◌≡◌, [], ◌∷◌, none, some, refl, if◌then◌else◌, ◌==◌}
use app_opt.Base.Dict.{lookup, contains, ℕ_eq, text_eq}
use app_opt.Base.Text.{codes, eq_text, strip_prefix}
use app_opt.Cache.{
  TaskEntry, Tasks, ApplyFn, task_apply, task_apply_found, task_apply_result, Threads, done,
  no_thread, name_for, task_dead, affinity_sync,
}
use app_opt.Cache.Laws.{
  task_apply_frame, task_apply-keeps, task_apply_removed, affinity_sync_exact, dead_entry,
}
use app_opt.Config.Load.{config_of}
use app_opt.Cpu.Set.{count, count_words, count_ones, or, or_words, new, set}
use app_opt.Match.{
  AffinityResult, thread_affinity, thread_loop, fallback_loop, affinity_result, fnmatch_c,
  until_nul,
}
use app_opt.Tests.Data.{topo, env, fnmatch, cfg, one_cpu}

abbrev entry : Bool → TaskEntry
entry flag = record {
  pid = 10;
  pkg = codes "com.a";
  cpus = one_cpu;
  cpuset_dir = [];
  is_thread_rule = flag;
}

abbrev tasks : Tasks
tasks = (10, entry false) ∷ (11, entry true) ∷ (12, entry false) ∷ []

-- Thread 12 is gone.
abbrev apply_fn : ApplyFn ℕ
apply_fn tid cpus dir calls = (tid == 12, calls + 1)

abbrev os : Threads
os = record {
  get_affinity = λ _. none;
  set_affinity = λ tid _. if tid == 11 then no_thread else done;
}

task_apply_frame_example :
    lookup 11
      (task_apply fnmatch env 10 10 (codes "com.a") (codes "main") cfg apply_fn tasks 0).tasks
    ≡ lookup 11 tasks
task_apply_frame_example =
    task_apply_frame fnmatch env 10 10 (codes "com.a") (codes "main") cfg apply_fn tasks 0 11 refl

affinity_sync_exact_example :
    (contains 11 (affinity_sync os none topo tasks).0
      ≡ dead_entry (task_dead os none topo) 11 (lookup 11 tasks))
    × (lookup 11 (affinity_sync os none topo tasks).1 ≡ (
        if dead_entry (task_dead os none topo) 11 (lookup 11 tasks) then none else lookup 11 tasks))
affinity_sync_exact_example = affinity_sync_exact os none topo tasks 11 (refl, (refl, (refl, tt)))

task_apply-keeps_example : (entry true).is_thread_rule ≡ true
unfolding task_apply task_apply_found task_apply_result thread_affinity thread_loop fallback_loop
    affinity_result config_of fnmatch_c until_nul eq_text strip_prefix count count_words count_ones
    or or_words new set
task_apply-keeps_example =
    task_apply-keeps fnmatch env 11 10 (codes "com.a") (codes "main") cfg apply_fn tasks 0
      {old = entry true} {new = entry true} refl refl refl

task_apply_removed_example :
    (r : AffinityResult) × (thread_affinity fnmatch env
        (codes "com.a")
        (name_for cfg (codes "com.a") (codes "main"))
        cfg
      ≡ some r)
    × ((apply_fn 12 r.cpus r.cpuset_dir 0).0 ≡ true)
unfolding task_apply task_apply_found task_apply_result thread_affinity thread_loop fallback_loop
    affinity_result config_of fnmatch_c until_nul eq_text strip_prefix count count_words count_ones
    or or_words new set
task_apply_removed_example =
    task_apply_removed fnmatch env 12 10 (codes "com.a") (codes "main") cfg apply_fn tasks 0
      {old = entry false} refl refl

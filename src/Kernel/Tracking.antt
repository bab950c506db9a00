-- ===== src/Kernel/Tracking.antt =====
-- The child of a managed thread is managed from its fork on.
use app_opt.Base.{
  ℕ, true, false, [], ◌∷◌, ◌++◌, some, ◌≡◌, refl, ap, ◌∙◌, ◌==◌, Bool-cases, inl, inr,
}
use app_opt.Base.Dict.{lookup, ℕ_eq}
use app_opt.Base.Text.{is_some}
use app_opt.Kernel.{
  Maps, Helpers, Applied, TracepointOffsets, ProcEvent, fork, rename, offsets_load, applied_lookup,
  low_word, high_word, or_zero, or_zeros, submit_event, fork_parse, report_meta, report_fork,
  report_named_event, sched_process_fork, rename_to, rename_at, injected, task_rename, place,
  event_of,
}

submit_event-maps :
    (k : Helpers) (e : ProcEvent) (m : Maps)
    → ((submit_event k e m).applied_map ≡ m.applied_map)
      × ((submit_event k e m).offsets_map ≡ m.offsets_map)
unfolding submit_event
submit_event-maps k e m = elim (Bool-cases k.reserve) [
  | inl room ↦ rw room (refl, refl)
  | inr full ↦ rw full (refl, refl)
]

-- A fork below a managed thread is reported and its child placed.
sched_process_fork-tracked :
    (k : Helpers) (o : TracepointOffsets) (m : Maps)
    → offsets_load m ≡ some o
    → applied_lookup (low_word k.pid_tgid) m ≡ true
    → sched_process_fork k m
      ≡ submit_event k (event_of (fork_parse k o) fork) (place k (fork_parse k o).tid m)
unfolding report_named_event report_meta fork_parse
sched_process_fork-tracked k o m loaded tracked =
    ap (λ x. report_fork k x m) loaded ∙ rw tracked refl

-- A rename of a managed thread is reported under any name.
task_rename-tracked :
    (k : Helpers) (o : TracepointOffsets) (m : Maps)
    → offsets_load m ≡ some o
    → applied_lookup (low_word k.pid_tgid) m ≡ true
    → (low_word k.pid_tgid == 0) ≡ false
    → k.reserve ≡ true
    → (task_rename k m).events
      ≡ m.events
        ++ (record {
          pid = high_word k.pid_tgid;
          tid = low_word k.pid_tgid;
          comm = or_zeros (k.read_comm o.rename_newcomm);
          event_type = rename;
        }
            ∷ [])
unfolding task_rename rename_to submit_event
task_rename-tracked k o m loaded tracked positive room =
    rw positive (ap (λ x. (rename_at k x m).events) loaded ∙ rw (tracked, room) refl)

-- Below a managed thread the child is managed at once, where the map keeps the key that goes in: the
-- child's next rename is reported under any name, as far as the ring buffer has room.
pub task_rename-sched_process_fork :
    (k k2 : Helpers) (o : TracepointOffsets) (m : Maps) (child : ℕ)
    → offsets_load m ≡ some o
    → applied_lookup (low_word k.pid_tgid) m ≡ true
    → k.read_i32 o.fork_child_pid ≡ some child
    → ((a : Applied) → lookup child (k.lru_insert child 0 a) ≡ some 0)
    → low_word k2.pid_tgid ≡ child
    → (child == 0) ≡ false
    → k2.reserve ≡ true
    → (task_rename k2 (sched_process_fork k m)).events
      ≡ (sched_process_fork k m).events
        ++ (record {
          pid = high_word k2.pid_tgid;
          tid = child;
          comm = or_zeros (k2.read_comm o.rename_newcomm);
          event_type = rename;
        }
            ∷ [])
task_rename-sched_process_fork k k2 o m child loaded tracked reads keeps same positive room =
    let tid : (fork_parse k o).tid ≡ child = unfold fork_parse in ap or_zero reads in
    let forked = sched_process_fork-tracked k o m loaded tracked in
    let placed =
      submit_event-maps k (event_of (fork_parse k o) fork) (place k (fork_parse k o).tid m) in
    let applied =
      ap (λ n. n.applied_map) forked ∙ placed.0 ∙ ap (λ t. k.lru_insert t 0 m.applied_map) tid in
    let still = ap injected (ap (λ n. n.offsets_map) forked ∙ placed.1) ∙ loaded in
    let managed : applied_lookup (low_word k2.pid_tgid) (sched_process_fork k m) ≡ true =
      ap (λ a. is_some (lookup (low_word k2.pid_tgid) a)) applied
      ∙ ap (λ t. is_some (lookup t (k.lru_insert child 0 m.applied_map))) same
      ∙ ap is_some (keeps m.applied_map) in
    task_rename-tracked k2 o (sched_process_fork k m) still managed
      (ap (λ t. t == 0) same ∙ positive) room
    ∙ ap
        (λ t.
          (sched_process_fork k m).events
          ++ (record {
            pid = high_word k2.pid_tgid;
            tid = t;
            comm = or_zeros (k2.read_comm o.rename_newcomm);
            event_type = rename;
          }
              ∷ []))
        same

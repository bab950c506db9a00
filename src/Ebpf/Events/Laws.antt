-- ===== src/Ebpf/Events/Laws.antt =====
-- What the events do to the two tables.
use app_opt.Base.{
  ℕ, Bool, true, false, not, Option, none, some, ◌≡◌, refl, ◌∙◌, Bool-cases, inl, inr, ◌==◌,
  ==_refl,
}
use app_opt.Base.Dict.{lookup, lookup-remove, ℕ_eq}
use app_opt.Base.Text.{Text}
use app_opt.Cache.{Threads, pkg_lookup_comm}
use app_opt.Cache.Laws.{task_apply_frame}
use app_opt.Config.Load.{AppConfig, Env}
use app_opt.Ebpf.Events.{
  AppliedMap, EbpfState, LruInsert, Event, applied_del, event_apply, apply_to, after, forget,
  event_dispatch, affinity_apply, dispatch,
}
use app_opt.Kernel.{EventType, fork, exec, rename, exit, input}
use app_opt.Match.{Fnmatch}

abbrev pub in_map : ℕ → Option AppliedMap → Option ℕ
in_map tid none = none
in_map tid (some m) = lookup tid m

gone : (tid : ℕ) (m : Option AppliedMap) → in_map tid (applied_del tid m) ≡ none
unfolding applied_del
gone tid none = refl
gone tid (some m) = lookup-remove tid tid m ∙ rw (==_refl tid) refl

module _ (fnmatch : Fnmatch) (env : Env) (os : Threads) (insert : LruInsert) (cfg : AppConfig) where
  forget-gone :
      (tid : ℕ) (s : EbpfState)
      → (lookup tid (forget fnmatch env os insert cfg tid s).tasks ≡ none)
        × (in_map tid (forget fnmatch env os insert cfg tid s).bpf.applied ≡ none)
  forget-gone tid s =
      (lookup-remove tid tid s.tasks ∙ rw (==_refl tid) refl, gone tid s.bpf.applied)

  forget-other :
      (tid other : ℕ) (s : EbpfState)
      → (tid == other) ≡ false
      → lookup other (forget fnmatch env os insert cfg tid s).tasks ≡ lookup other s.tasks
  forget-other tid other s ne = lookup-remove tid other s.tasks ∙ rw ne refl

  apply_to-other :
      (tid pid : ℕ) (comm : Text) (pkg : Option Text) (s : EbpfState) (other : ℕ)
      → (tid == other) ≡ false
      → lookup other (apply_to fnmatch env os insert cfg tid pid comm pkg s).tasks
        ≡ lookup other s.tasks
  apply_to-other tid pid comm none s other ne = refl
  apply_to-other tid pid comm (some pkg) s other ne =
      task_apply_frame fnmatch env tid pid pkg comm cfg (affinity_apply fnmatch env os insert cfg)
        s.tasks s.bpf other ne

  event_apply-other :
      (tid pid : ℕ) (comm : Text) (s : EbpfState) (other : ℕ)
      → (tid == other) ≡ false
      → lookup other (event_apply fnmatch env os insert cfg tid pid comm s).tasks
        ≡ lookup other s.tasks
  unfolding event_apply
  event_apply-other tid pid comm s other ne =
      apply_to-other tid pid comm (pkg_lookup_comm pid comm cfg s.tasks) s other ne

  exec-other :
      (e : Event) (s : EbpfState) (other : ℕ)
      → (e.tid == other) ≡ false
      → lookup other (dispatch fnmatch env os insert cfg exec e s).tasks ≡ lookup other s.tasks
  exec-other e s other ne =
      let applied = event_apply fnmatch env os insert cfg e.tid e.pid e.comm s in
      let same = event_apply-other e.tid e.pid e.comm s other ne in
      elim (Bool-cases applied.inserted) [
        | inl kept ↦ rw kept same
        | inr dropped ↦
            rw dropped
              (forget-other e.tid other (after fnmatch env os insert cfg applied) ne ∙ same)
      ]

  -- An event changes no entry of the table but that of its own thread.
  pub event_dispatch_frame :
      (e : Event) (s : EbpfState) (other : ℕ)
      → (e.tid == other) ≡ false
      → lookup other (event_dispatch fnmatch env os insert cfg e s).tasks ≡ lookup other s.tasks
  unfolding event_dispatch
  event_dispatch_frame e s other ne = by_type e.event_type
    where
      by_type :
          (t : EventType)
          → lookup other (dispatch fnmatch env os insert cfg t e s).tasks ≡ lookup other s.tasks
      by_type exit = forget-other e.tid other s ne
      by_type exec = exec-other e s other ne
      by_type fork = refl
      by_type rename = event_apply-other e.tid e.pid e.comm s other ne
      by_type input = refl

  -- An exit drops its thread, and so does an exec whose thread gets no affinity.
  abbrev pub drops : EventType → Event → EbpfState → Bool
  drops exit e s = true
  drops exec e s = not (event_apply fnmatch env os insert cfg e.tid e.pid e.comm s).inserted
  drops _ e s = false

  dispatch-gone :
      (t : EventType) (e : Event) (s : EbpfState)
      → drops t e s ≡ true
      → (lookup e.tid (dispatch fnmatch env os insert cfg t e s).tasks ≡ none)
        × (in_map e.tid (dispatch fnmatch env os insert cfg t e s).bpf.applied ≡ none)
  dispatch-gone exit e s h = forget-gone e.tid s
  dispatch-gone exec e s h = rw h (
      forget-gone e.tid (
        after fnmatch env os insert cfg
          (event_apply fnmatch env os insert cfg e.tid e.pid e.comm s)))
  dispatch-gone fork e s h = absurd (cc h)
  dispatch-gone rename e s h = absurd (cc h)
  dispatch-gone input e s h = absurd (cc h)

  -- After an exit, and after an exec whose thread gets no affinity, neither the table nor the map of
  -- the kernel has the thread.
  pub event_dispatch_gone :
      (e : Event) (s : EbpfState)
      → drops e.event_type e s ≡ true
      → (lookup e.tid (event_dispatch fnmatch env os insert cfg e s).tasks ≡ none)
        × (in_map e.tid (event_dispatch fnmatch env os insert cfg e s).bpf.applied ≡ none)
  unfolding event_dispatch
  event_dispatch_gone e s h = dispatch-gone e.event_type e s h

-- ===== src/Daemon/Round/Modes.antt =====
-- The mode that the rounds of AppOpt/src/main.rs stay in.
use app_opt.Base.{
  ℕ, Bool, true, false, not, ◌&&◌, ◌||◌, ◌≡◌, ◌∙◌, sym, subst, refl, ap, List, [], ◌∷◌, Option,
  none, some, ◌==◌, if_elim, if◌then◌else◌, arith,
}
use app_opt.Base.Text.{is_some}
use app_opt.Config.Load.{AppConfig}
use app_opt.Daemon.Round.{
  Parts, Daemon, or_new, to_proc, leave_forced, retries, retry, refilter, serve, rescanned, bound,
  binds, after_refilter, with_config, round, may_start, run,
}
use app_opt.Scan.{ProcScanState}

-- No eBPF state, and none to be made.
record InProc {E : Type 0} (d : Daemon E) : Type 0 where
  ebpf : d.ebpf ≡ none
  barred : may_start d ≡ false

not_due : (a b c t : Bool) → (a && c) ≡ false → (a && b && c && t) ≡ false
not_due a b c t h = ground arith

and-false : (b : Bool) → (b && false) ≡ false
and-false true = refl
and-false false = refl

module _ {E : Type 0} (k : Parts E) (now : ℕ) where
  leave_forced-same : (d : Daemon E) → InProc d → leave_forced k now d ≡ d
  unfolding leave_forced
  leave_forced-same d h =
      ap (λ b. if b then to_proc k now d else d)
        (ap (λ o. d.mode == 2 && is_some o) h.ebpf ∙ and-false (d.mode == 2))

  retries-false : (d : Daemon E) → InProc d → retries k now d ≡ false
  retries-false d h =
      not_due (not (d.mode == 2)) (not (is_some d.ebpf)) (d.mode == 1 || not d.gave_up) _ h.barred

  retry-same : (cfg : AppConfig) (d : Daemon E) → InProc d → retry k now cfg d ≡ d
  unfolding retry
  retry-same cfg d h = rw (retries-false d h) refl

  bound-InProc :
      (cfg : AppConfig) (s : ProcScanState) (d : Daemon E) → InProc d → InProc (bound k now cfg s d)
  bound-InProc cfg s d h =
      if_elim {A = Daemon E} InProc (binds k now s d) (record { ebpf = h.ebpf; barred = h.barred })
        (record { ebpf = h.ebpf; barred = h.barred })

  -- Without an eBPF state, the proc mode does the work.
  work-InProc :
      (changed : Bool) (cfg : AppConfig) (d : Daemon E)
      → InProc d
      → InProc (after_refilter k now changed cfg (refilter k now changed cfg d.ebpf) d)
  unfolding refilter serve
  work-InProc changed cfg d h =
      subst (λ o. InProc (after_refilter k now changed cfg (refilter k now changed cfg o) d))
        (sym h.ebpf)
        (bound-InProc cfg (k.cache_sync cfg (rescanned k now changed (or_new d.proc)))
          (record d { ebpf = none }) (record { ebpf = refl; barred = h.barred }))

  with_config-InProc :
      (o : Option AppConfig) (d : Daemon E) → InProc d → InProc (with_config k now o d)
  with_config-InProc none d h = record { ebpf = h.ebpf; barred = h.barred }
  with_config-InProc (some cfg) d h =
      let quiet : Daemon E = record d { updated = false } in
      let quiet-InProc : InProc quiet = record { ebpf = h.ebpf; barred = h.barred } in
      let same =
        ap (retry k now cfg) (leave_forced-same quiet quiet-InProc)
        ∙ retry-same cfg quiet quiet-InProc in
      subst
        (λ e. InProc (after_refilter k now d.updated cfg (refilter k now d.updated cfg e.ebpf) e))
        (sym same) (work-InProc d.updated cfg quiet quiet-InProc)

  round-InProc : (d : Daemon E) → InProc d → InProc (round k now d)
  unfolding round
  round-InProc d h = with_config-InProc d.current d h

run-InProc :
    {E : Type 0} (rounds : List (Parts E × ℕ)) (d : Daemon E) → InProc d → InProc (run rounds d)
unfolding run
run-InProc [] d h = h
run-InProc ((k, now) ∷ rounds) d h = run-InProc rounds (round k now d) (round-InProc k now d h)

-- When the daemon has no eBPF state, and it is forced to the proc mode or the automatic mode has
-- given up, no number of rounds starts the eBPF mode, as long as nobody changes the mode.
pub run-ebpf :
    {E : Type 0} (rounds : List (Parts E × ℕ)) (d : Daemon E)
    → d.ebpf ≡ none
    → may_start d ≡ false
    → (run rounds d).ebpf ≡ none
run-ebpf rounds d e b = (run-InProc rounds d (record { ebpf = e; barred = b })).ebpf

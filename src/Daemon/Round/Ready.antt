-- ===== src/Daemon/Round/Ready.antt =====
-- What the eBPF state has after a round of AppOpt/src/main.rs, whatever the operations keep.
use app_opt.Base.{
  ℕ, ◌-◌, Bool, true, false, ◌&&◌, ◌≡◌, sym, subst, refl, Option, none, some, leb, ◌==◌, if_elim,
  if◌then◌else◌,
}
use app_opt.Base.Text.{is_some}
use app_opt.Config.Load.{AppConfig}
use app_opt.Daemon.Round.{
  Parts, Daemon, or_new, leave_forced, give_up, started, retried, retries, retry, filtered,
  refilter, scanned, reload, checked, serve, rescanned, binds, after_refilter, with_config, round,
}

-- The filter's start makes a state ready unless it asks for a reload, and the other operations keep that.
pub record IsKept {E : Type 0} (k : Parts E) (cfg : AppConfig) (Ready : E → Type 0) : Type 0 where
  pub made : (e : E) → (k.comm_map_init cfg e).0 ≡ false → Ready (k.comm_map_init cfg e).1
  pub scanned : (e : E) → Ready e → Ready (k.full_scan cfg e)
  pub received : (e : E) → Ready e → Ready (k.receive cfg e).1
  pub checked : (e : E) → Ready e → Ready (k.affinity_check cfg e)

abbrev pub AllReady : {E : Type 0} → (E → Type 0) → Option E → Type 0
AllReady Ready none = Unit
AllReady Ready (some e) = Ready e

module _ {E : Type 0} (k : Parts E) (now : ℕ) (cfg : AppConfig) (Ready : E → Type 0)
    (h : IsKept k cfg Ready) where
  leave_forced-ready :
      (d : Daemon E) → AllReady Ready d.ebpf → AllReady Ready (leave_forced k now d).ebpf
  unfolding leave_forced
  leave_forced-ready d r =
      if_elim {A = Daemon E} (λ e. AllReady Ready e.ebpf) (d.mode == 2 && is_some d.ebpf) tt r

  give_up-ready : (d : Daemon E) → AllReady Ready d.ebpf → AllReady Ready (give_up k now d).ebpf
  give_up-ready d r = if_elim {A = Daemon E} (λ e. AllReady Ready e.ebpf) (d.mode == 0) r r

  started-ready :
      (p : Bool × E) (d : Daemon E)
      → (p.0 ≡ false → Ready p.1)
      → AllReady Ready d.ebpf
      → AllReady Ready (started k now cfg p d).ebpf
  started-ready (true, e) d f r = give_up-ready d r
  started-ready (false, e) d f r = h.scanned e (f refl)

  retried-ready :
      (o : Option E) (d : Daemon E)
      → AllReady Ready d.ebpf
      → AllReady Ready (retried k now cfg o d).ebpf
  retried-ready none d r = give_up-ready d r
  retried-ready (some e) d r = started-ready (k.comm_map_init cfg e) d (h.made e) r

  retry-ready : (d : Daemon E) → AllReady Ready d.ebpf → AllReady Ready (retry k now cfg d).ebpf
  unfolding retry
  retry-ready d r =
      if_elim {A = Daemon E} (λ e. AllReady Ready e.ebpf) (retries k now d)
        (retried-ready k.retry_init (record d { ebpf_retry_at = now }) r) r

  scanned-ready : (p : Bool × E) → (p.0 ≡ false → Ready p.1) → AllReady Ready (scanned k now cfg p)
  scanned-ready (true, e) f = tt
  scanned-ready (false, e) f = h.scanned e (f refl)

  reload-ready : (o : Option E) → AllReady Ready (reload k now cfg o)
  unfolding reload
  reload-ready none = tt
  reload-ready (some e) = scanned-ready (k.comm_map_init cfg e) (h.made e)

  checked-ready :
      (p : Bool × E) (d : Daemon E) → Ready p.1 → AllReady Ready (checked k now cfg p d).ebpf
  checked-ready (true, e) d r = tt
  checked-ready (false, e) d r = by_due (leb _ (now - d.affinity_deadline))
    where
      by_due :
          (b : Bool)
          → AllReady Ready
              (if b
                then record d { ebpf = some (k.affinity_check cfg e); affinity_deadline = now }
                else record d { ebpf = some e }).ebpf
      by_due true = h.checked e r
      by_due false = r

  serve-ready :
      (changed : Bool) (o : Option E) (d : Daemon E)
      → AllReady Ready o
      → AllReady Ready (serve k now changed cfg o (record d { ebpf = o })).ebpf
  unfolding serve
  serve-ready changed none d r =
      if_elim {A = Daemon E} (λ e. AllReady Ready e.ebpf)
        (binds k now (k.cache_sync cfg (rescanned k now changed (or_new d.proc)))
          (record d { ebpf = none }))
        tt tt
  serve-ready changed (some e) d r =
      checked-ready (k.receive cfg e) (record d { ebpf = some e }) (h.received e r)

  filtered-ready :
      (p : Bool × E) (d : Daemon E)
      → (p.0 ≡ false → Ready p.1)
      → AllReady Ready
          (after_refilter k now true cfg
            ((filtered k now cfg p).0, some (filtered k now cfg p).1)
            d).ebpf
  filtered-ready (true, e) d f = reload-ready k.reload_init
  filtered-ready (false, e) d f =
      serve-ready true (some (k.full_scan cfg e)) d (h.scanned e (f refl))

  -- A change of the rules is followed by a new filter or by its end.
  changed-ready :
      (o : Option E) (d : Daemon E)
      → AllReady Ready (after_refilter k now true cfg (refilter k now true cfg o) d).ebpf
  unfolding refilter
  changed-ready none d = serve-ready true none d tt
  changed-ready (some e) d = filtered-ready (k.comm_map_init cfg e) d (h.made e)

  pub round-ready :
      (d : Daemon E) → d.current ≡ some cfg → d.updated ≡ true → AllReady Ready (round k now d).ebpf
  unfolding round
  round-ready d c u =
      let ready = retry k now cfg (leave_forced k now (record d { updated = false })) in
      subst (λ o. AllReady Ready (with_config k now o d).ebpf) (sym c)
        (subst
          (λ b.
            AllReady Ready
              (after_refilter k now b cfg (refilter k now b cfg ready.ebpf) ready).ebpf)
          (sym u) (changed-ready ready.ebpf ready))

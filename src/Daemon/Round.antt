-- ===== src/Daemon/Round.antt =====
-- The loop of `main` in AppOpt/src/main.rs. Both modes are taken by their operations: the eBPF mode keeps a
-- state of type `E`, the proc mode that of Scan. Times are in seconds.
pub mod Modes
pub mod Ready
use app_opt.Base.{
  ℕ, ◌-◌, ◌*◌, Bool, true, false, not, ◌&&◌, ◌||◌, List, [], ◌∷◌, Option, none, some, max, leb,
  ◌==◌, if◌then◌else◌,
}
use app_opt.Base.Text.{is_some}
use app_opt.Config.Load.{AppConfig}
use app_opt.Scan.{ProcScanState}

-- The operations of the modes in one round. `ebpf_init` is called at most once for a retry and once for
-- a reload; `receive` is the wait for events with their dispatch, and says whether the channel is closed.
pub record Parts (E : Type 0) : Type 0 where
  pub retry_init : Option E
  pub reload_init : Option E
  pub comm_map_init : AppConfig → E → Bool × E
  pub full_scan : AppConfig → E → E
  pub receive : AppConfig → E → Bool × E
  pub affinity_check : AppConfig → E → E
  pub cache_sync : AppConfig → ProcScanState → ProcScanState
  pub affinity_sync : AppConfig → ProcScanState → ProcScanState

pub record Daemon (E : Type 0) : Type 0 where
  pub updated : Bool
  pub current : Option AppConfig
  pub check_interval : ℕ
  pub mode : ℕ
  pub gave_up : Bool
  pub ebpf : Option E
  pub proc : Option ProcScanState
  pub affinity_deadline : ℕ
  pub ebpf_retry_at : ℕ

-- `ProcScanState::new`
abbrev pub new_scan : ProcScanState
new_scan = record {
  tasks = [];
  last_proc_count = 0;
  scan_all_proc = false;
  tracked_pids = [];
  last_proc_total = 0;
  force_affinity = false;
}

-- `get_or_insert_with`
abbrev pub or_new : Option ProcScanState → ProcScanState
or_new none = new_scan
or_new (some s) = s

abbrev pub scan_anew : ProcScanState → ProcScanState
scan_anew s = record s { scan_all_proc = true; last_proc_count = 0; force_affinity = true }

module _ {E : Type 0} (k : Parts E) (now : ℕ) where
  -- The eBPF mode ends, and the proc mode begins with a scan of everything.
  abbrev pub to_proc : Daemon E → Daemon E
  to_proc d = record d {
    ebpf = none;
    proc = some (scan_anew (or_new d.proc));
    affinity_deadline = now;
  }

  unfoldable pub leave_forced : Daemon E → Daemon E
  leave_forced d = if d.mode == 2 && is_some d.ebpf then to_proc d else d

  abbrev pub give_up : Daemon E → Daemon E
  give_up d = if d.mode == 0 then record d { gave_up = true } else d

  abbrev pub started : AppConfig → Bool × E → Daemon E → Daemon E
  started cfg (true, es) d = give_up d
  started cfg (false, es) d = record d { ebpf = some (k.full_scan cfg es); affinity_deadline = now }

  abbrev pub retried : AppConfig → Option E → Daemon E → Daemon E
  retried cfg none d = give_up d
  retried cfg (some es) d = started cfg (k.comm_map_init cfg es) d

  abbrev pub retries : Daemon E → Bool
  retries d =
      not (d.mode == 2)
      && not (is_some d.ebpf)
      && (d.mode == 1 || not d.gave_up)
      && leb 30 (now - d.ebpf_retry_at)

  unfoldable pub retry : AppConfig → Daemon E → Daemon E
  retry cfg d = if retries d then retried cfg k.retry_init (record d { ebpf_retry_at = now }) else d

  -- The filter after a change of the rules: whether the eBPF mode is to be loaded again.
  abbrev pub filtered : AppConfig → Bool × E → Bool × E
  filtered cfg (true, es) = (true, es)
  filtered cfg (false, es) = (false, k.full_scan cfg es)

  unfoldable pub refilter : Bool → AppConfig → Option E → Bool × Option E
  refilter changed cfg none = (false, none)
  refilter changed cfg (some es) =
      let f = filtered cfg (k.comm_map_init cfg es) in
      if changed then (f.0, some f.1) else (false, some es)

  abbrev pub scanned : AppConfig → Bool × E → Option E
  scanned cfg (true, es) = none
  scanned cfg (false, es) = some (k.full_scan cfg es)

  unfoldable pub reload : AppConfig → Option E → Option E
  reload cfg none = none
  reload cfg (some es) = scanned cfg (k.comm_map_init cfg es)

  abbrev interval : Daemon E → ℕ
  interval d = max d.check_interval 1

  abbrev pub checked : AppConfig → Bool × E → Daemon E → Daemon E
  checked cfg (dead, es) d =
      let due = leb (3 * interval d) (now - d.affinity_deadline) in
      let after =
        if due
        then record d { ebpf = some (k.affinity_check cfg es); affinity_deadline = now }
        else record d { ebpf = some es } in
      if dead then to_proc after else after

  abbrev pub rescanned : Bool → ProcScanState → ProcScanState
  rescanned changed s =
      if changed then record s { scan_all_proc = true; last_proc_count = 0 } else s

  abbrev pub binds : ProcScanState → Daemon E → Bool
  binds s d = leb (5 * interval d) (now - d.affinity_deadline) || s.force_affinity

  abbrev pub bound : AppConfig → ProcScanState → Daemon E → Daemon E
  bound cfg s d =
      if binds s d
      then record d {
        proc = some (record (k.affinity_sync cfg s) { force_affinity = false });
        affinity_deadline = now;
      }
      else record d { proc = some s }

  -- One mode does its work.
  unfoldable pub serve : Bool → AppConfig → Option E → Daemon E → Daemon E
  serve changed cfg (some es) d = checked cfg (k.receive cfg es) d
  serve changed cfg none d = bound cfg (k.cache_sync cfg (rescanned changed (or_new d.proc))) d

  abbrev pub after_refilter : Bool → AppConfig → Bool × Option E → Daemon E → Daemon E
  after_refilter changed cfg (true, es) d = record d { ebpf = reload cfg k.reload_init }
  after_refilter changed cfg (false, es) d = serve changed cfg es (record d { ebpf = es })

  abbrev pub with_config : Option AppConfig → Daemon E → Daemon E
  with_config none d = record d { updated = false }
  with_config (some cfg) d =
      let ready = retry cfg (leave_forced (record d { updated = false })) in
      after_refilter d.updated cfg (refilter d.updated cfg ready.ebpf) ready

  -- One round; the thread of the loader and the figures for the web interface are left.
  unfoldable pub round : Daemon E → Daemon E
  unfolding leave_forced retry refilter reload serve
  round d = with_config d.current d

-- Whether the eBPF mode may be started.
abbrev pub may_start : {E : Type 0} → Daemon E → Bool
may_start d = not (d.mode == 2) && (d.mode == 1 || not d.gave_up)

-- Rounds, each with what its operations give and its time.
unfoldable pub run : {E : Type 0} → List (Parts E × ℕ) → Daemon E → Daemon E
unfolding round
run [] d = d
run ((k, now) ∷ rounds) d = run rounds (round k now d)

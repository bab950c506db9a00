-- ===== src/Daemon/Parts.antt =====
-- The operations of the rounds in AppOpt/src/main.rs, as the models of the two modes give them.
pub mod Filter
use app_opt.Base.{ℕ, Bool, List, [], ◌∷◌, Option}
use app_opt.Base.Text.{Text}
use app_opt.Cache.{Threads, affinity_sync}
use app_opt.Config.Load.{AppConfig, Env}
use app_opt.Daemon.Round.{Parts}
use app_opt.Ebpf.{KeyMap, comm_map_init}
use app_opt.Ebpf.Events.{EbpfState, Event, LruInsert, event_dispatch, affinity_check, full_scan}
use app_opt.Match.{Fnmatch}
use app_opt.Scan.{ProcFs, ProcScanState, cache_sync}

-- The eBPF state with the kernel's filter: `found` says whether the object has its map.
pub record Side : Type 0 where
  pub state : EbpfState
  pub filter : KeyMap
  pub found : Bool
  pub comm_capacity : ℕ

-- What the system and the kernel give in one round.
pub record Answers : Type 0 where
  pub retry_init : Option Side
  pub reload_init : Option Side
  pub accepts : List ℕ → KeyMap → Bool
  pub clear : KeyMap → KeyMap
  pub env : Env
  pub threads : Threads
  pub insert : LruInsert
  pub fs : ProcFs
  pub events : List Event
  pub closed : Bool
  pub sysinfo : Option ℕ
  pub alive : ℕ → Bool

unfoldable pub dispatch_all : Fnmatch → Answers → AppConfig → List Event → EbpfState → EbpfState
dispatch_all fnmatch a cfg [] s = s
dispatch_all fnmatch a cfg (e ∷ es) s =
    dispatch_all fnmatch a cfg es (event_dispatch fnmatch a.env a.threads a.insert cfg e s)

abbrev pub refill : Answers → AppConfig → Side → Bool × Side
refill a cfg s =
    let filled = comm_map_init a.accepts a.clear s.found cfg.pkgs s.comm_capacity s.filter in
    (filled.0, record s { filter = filled.1 })

abbrev pub parts_of : Fnmatch → Answers → Parts Side
parts_of fnmatch a = record {
  retry_init = a.retry_init;
  reload_init = a.reload_init;
  comm_map_init = refill a;
  full_scan =
      λ cfg s. record s { state = full_scan fnmatch a.env a.threads a.insert cfg a.fs s.state };
  receive = λ cfg s. (a.closed, record s { state = dispatch_all fnmatch a cfg a.events s.state });
  affinity_check =
      λ cfg s. record s { state = affinity_check fnmatch a.env a.threads a.insert cfg s.state };
  cache_sync = λ cfg s. cache_sync fnmatch a.env a.fs a.sysinfo a.alive cfg s;
  affinity_sync =
      λ cfg s. record s { tasks = (affinity_sync a.threads a.env.base cfg.topo s.tasks).1 };
}

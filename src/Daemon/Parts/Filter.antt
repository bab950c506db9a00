-- ===== src/Daemon/Parts/Filter.antt =====
-- The filter of the kernel after a round of AppOpt/src/main.rs.
use app_opt.Base.{◌≤◌, true, ◌≡◌, ◌≢◌, [], some, length}
use app_opt.Base.Text.{Text}
use app_opt.Config.Load.{AppConfig}
use app_opt.Daemon.Parts.{Side, Answers}
use app_opt.Daemon.Round.{Daemon}
use app_opt.Ebpf.Keys.{IsAscii}
use app_opt.Ebpf.Whitelist.{comm_array}
use app_opt.Kernel.{Maps, whitelist_matched}
use app_opt.Match.{Fnmatch, comm_to_pkg}

module _ (fnmatch : Fnmatch) (a : Answers) (cfg : AppConfig) (m : Maps) (t p : Text)
    (ascii : IsAscii t) (named : t ≢ []) (short : length t ≤ 15)
    (found : comm_to_pkg t cfg.pkgs ≡ some p) where
  -- The filter of a state lets the name pass, if the state has one.
  abbrev Passes : Side → Type 0
  Passes s =
      s.found ≡ true
      → whitelist_matched (comm_array t) (record m { target_comm_map = s.filter }) ≡ true

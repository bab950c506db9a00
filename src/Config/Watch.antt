-- ===== src/Config/Watch.antt =====
-- `config_loader` of AppOpt/src/config.rs: the thread that loads the rules again when their file changes.
-- The answers of the kernel are arguments: the file at each path, and what inotify reports.
pub mod Fresh
use app_opt.Base.{
  ℕ, ◌+◌, ◌%◌, ◌^◌, Bool, true, false, not, ◌&&◌, ◌||◌, List, [], ◌∷◌, Option, none, some, any,
  bit_and, bit_or, ◌==◌, if◌then◌else◌,
}
use app_opt.Base.Text.{Text, contains_char}
use app_opt.Config.Load.{AppConfig, Env, ConfigFile, Loaded, load_config, no_mtime}
use app_opt.Cpu.Dirs.{Sys}

-- The statics of the module, with `last_mtime` of the thread and `CONFIG_UPDATED`.
pub record Watch : Type 0 where
  pub supported : Bool
  pub fd : Option ℕ
  pub wd : Option ℕ
  pub last_mtime : ℕ
  pub updated : Bool
  pub force_reload : Bool
  pub config_file : Text
  pub current : Option AppConfig
  pub parse_fails : ℕ

pub record World : Type 0 where
  pub sys : Sys
  pub base : Option Text
  pub files : Text → ConfigFile
  pub init : Option ℕ
  pub add_watch : Text → Option ℕ

unfoldable pub init_inotify : World → Watch → Watch
init_inotify k w = elim k.init [
  | none ↦ w
  | some fd ↦ if contains_char 0 w.config_file then w else elim (k.add_watch w.config_file) [
    | some wd ↦ record w { supported = true; fd = some fd; wd = some wd }
    | none ↦ w
  ]
]

unfoldable pub disable_inotify : Watch → Watch
disable_inotify w = record w { supported = false; fd = none; wd = none }

abbrev pub env_of : World → AppConfig → Env
env_of k cfg = record { sys = k.sys; base = k.base; topo = cfg.topo }

abbrev pub adopt : Loaded → Watch → Option AppConfig → Watch
adopt l w none = record w { last_mtime = l.last_mtime; parse_fails = l.parse_fails }
adopt l w (some cfg) = record w {
  last_mtime = l.last_mtime;
  parse_fails = l.parse_fails;
  current = some cfg;
  updated = true;
}

abbrev pub reload_from : World → Watch → Option AppConfig → Watch
reload_from k w none = w
reload_from k w (some cfg) =
    let l = load_config (env_of k cfg) (k.files w.config_file) w.last_mtime w.parse_fails in
    adopt l w l.config

unfoldable pub config_reload : World → Watch → Watch
config_reload k w = reload_from k w w.current

-- `config_reload_now`, whose time stamp is its own.
unfoldable pub config_reload_now : World → Watch → Watch
unfolding config_reload
config_reload_now k w = record (config_reload k (record w { last_mtime = no_mtime })) {
  last_mtime = w.last_mtime;
}

abbrev pub watched : Text → Option ℕ → Watch → Bool × Watch
watched path none w = (false, disable_inotify w)
watched path (some wd) w = (true, record w { wd = some wd })

unfoldable pub inotify_rewatch : World → Watch → Bool × Watch
unfolding disable_inotify
inotify_rewatch k w =
    if contains_char 0 w.config_file
    then (false, disable_inotify w)
    else watched w.config_file (k.add_watch w.config_file) w

-- IN_CLOSE_WRITE, IN_DELETE_SELF and IN_MOVE_SELF.
abbrev pub close_write : ℕ
close_write = 0x8

abbrev pub self_gone : ℕ
self_gone = 0x400 + 0x800

abbrev pub has_bits : ℕ → ℕ → Bool
has_bits bits mask = not (bit_and mask bits == 0)

-- What a `read` of the descriptor gives: the masks of its events, an error that ends the loop (EAGAIN and
-- its like), or another one.
pub data Read : Type 0 where
  events : List ℕ → Read
  again : Read
  broken : Read

-- `reload_needed` and `needs_rewatch`.
pub record Needs : Type 0 where
  pub reload : Bool
  pub rewatch : Bool

abbrev pub relevant : ℕ → Bool
relevant mask = has_bits (close_write + self_gone) mask

unfoldable pub scan_events : List ℕ → Needs → Needs
scan_events [] n = n
scan_events (mask ∷ masks) n = scan_events masks (
    if relevant mask
    then record { reload = true; rewatch = n.rewatch || has_bits self_gone mask }
    else n)

-- The loop over the reads; `none` is the return after an error, with inotify off.
unfoldable pub read_loop : List Read → Needs → Option Needs × Needs
unfolding scan_events
read_loop [] n = (some n, n)
read_loop (events masks ∷ reads) n = read_loop reads (scan_events masks n)
read_loop (again ∷ reads) n = (some n, n)
read_loop (broken ∷ reads) n = (none, n)

pub data Poll : Type 0 where
  interrupted failed timeout : Poll
  ready : List Read → Poll

-- An event that counts makes the next load read the file.
abbrev pub forget_mtime : Needs → Watch → Watch
forget_mtime n w = if n.reload then record w { last_mtime = no_mtime } else w

abbrev pub reload_if : World → Bool → Watch → Watch
reload_if k b w = if b then config_reload k w else w

abbrev pub after_rewatch : World → Needs → Bool × Watch → Watch
after_rewatch k n (true, w) = reload_if k n.reload w
after_rewatch k n (false, w) = w

abbrev pub after_reads : World → Watch → Option Needs × Needs → Watch
after_reads k w (none, n) = disable_inotify (forget_mtime n w)
after_reads k w (some m, n) =
    if n.rewatch
    then after_rewatch k n (inotify_rewatch k (forget_mtime n w))
    else reload_if k n.reload (forget_mtime n w)

unfoldable pub inotify_handle : World → Poll → Watch → Watch
unfolding config_reload inotify_rewatch disable_inotify read_loop
inotify_handle k interrupted w = w
inotify_handle k failed w = disable_inotify w
inotify_handle k timeout w = w
inotify_handle k (ready reads) w =
    after_reads k w (read_loop reads (record { reload = false; rewatch = false }))

abbrev pub forced : World → Watch → Watch
forced k w =
    let fresh = record w { force_reload = false; last_mtime = no_mtime } in
    config_reload k (if w.supported then (inotify_rewatch k fresh).1 else fresh)

abbrev pub by_mode : World → Poll → Watch → Watch
by_mode k p w = if w.supported then inotify_handle k p w else config_reload k w

-- One round of `config_loader`.
unfoldable pub config_loader : World → Poll → Watch → Watch
unfolding config_reload inotify_rewatch inotify_handle
config_loader k p w = by_mode k p (if w.force_reload then forced k w else w)

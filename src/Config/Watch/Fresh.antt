-- ===== src/Config/Watch/Fresh.antt =====
-- A change of the file that `config_loader` of AppOpt/src/config.rs is told of is loaded.
use app_opt.Base.{
  ℕ, Bool, true, false, ◌&&◌, ◌||◌, ◌≡◌, ◌⊎◌, ◌∙◌, sym, subst, refl, ap, List, [], ◌∷◌, Option,
  none, some, any, ◌==◌, inl, inr, if_elim, or_false, if◌then◌else◌,
}
use app_opt.Base.Text.{Text, contains_char}
use app_opt.Config.Load.{AppConfig, Env, ConfigFile, Loaded, load_config, load_content, no_mtime}
use app_opt.Config.Watch.{
  Watch, World, disable_inotify, env_of, reload_from, config_reload, inotify_rewatch, has_bits,
  Read, events, again, broken, Needs, relevant, scan_events, read_loop, Poll, ready, forget_mtime,
  reload_if, after_rewatch, after_reads, inotify_handle, by_mode, config_loader, self_gone, adopt,
  forced, watched,
}

-- The file at the path, which can be read.
pub record IsFile (k : World) (w : Watch) (cfg : AppConfig) (m : ℕ) (c : Text) : Type 0 where
  pub loaded_yet : w.current ≡ some cfg
  pub mtime : (k.files w.config_file).mtime ≡ some m
  pub content : (k.files w.config_file).content ≡ some c

-- The configuration in force is that of the file.
abbrev pub IsFresh : World → AppConfig → ℕ → Text → Watch → Type 0
IsFresh k cfg m c w = w.current ≡ (load_content (env_of k cfg) m c).config

load_config-forced :
    (env : Env) (file : ConfigFile) (fails m : ℕ) (c : Text)
    → file.mtime ≡ some m
    → file.content ≡ some c
    → load_config env file no_mtime fails ≡ load_content env m c
unfolding load_config
load_config-forced env file fails m c em ec = rw em (
    rw ec (
      ap {B = Loaded}
        (λ b.
          if b
          then record { config = none; last_mtime = no_mtime; parse_fails = fails }
          else load_content env m c)
        (never (no_mtime == m))))
  where
    never : (b : Bool) → (b && false) ≡ false
    never true = refl
    never false = refl

adopt-current :
    (l : Loaded) (w : Watch) (o : Option AppConfig) {a : AppConfig}
    → o ≡ some a
    → (adopt l w o).current ≡ o
adopt-current l w none h = absurd (cc h)
adopt-current l w (some b) h = refl

load_content-some :
    (env : Env) (m : ℕ) (c : Text) → (a : AppConfig) × ((load_content env m c).config ≡ some a)
unfolding load_content
load_content-some env m c = (_, refl)

-- A load without a time stamp takes what the file holds.
config_reload-IsFresh :
    (k : World) (w : Watch) (cfg : AppConfig) (m : ℕ) (c : Text)
    → IsFile k w cfg m c
    → w.last_mtime ≡ no_mtime
    → IsFresh k cfg m c (config_reload k w)
unfolding config_reload
config_reload-IsFresh k w cfg m c h old =
    let env = env_of k cfg in
    let loaded : Loaded = load_config env (k.files w.config_file) w.last_mtime w.parse_fails in
    let same : loaded ≡ load_content env m c =
      ap (λ t. load_config env (k.files w.config_file) t w.parse_fails) old
      ∙ load_config-forced env (k.files w.config_file) w.parse_fails m c h.mtime h.content in
    let given = ap (λ l. l.config) same in
    ap (λ o. (reload_from k w o).current) h.loaded_yet
    ∙ adopt-current loaded w loaded.config (given ∙ (load_content-some env m c).1)
    ∙ given

-- A needed reload stays needed.
scan_events-reload :
    (masks : List ℕ) (n : Needs)
    → (n.reload || any relevant masks) ≡ true
    → (scan_events masks n).reload ≡ true
unfolding scan_events
scan_events-reload [] n h = sym (or_false n.reload) ∙ h
scan_events-reload (mask ∷ masks) n h = scan_events-reload masks _ (by_mask (relevant mask) refl)
  where
    by_mask :
        (b : Bool)
        → relevant mask ≡ b
        → ((if b
              then record { reload = true; rewatch = n.rewatch || has_bits self_gone mask }
              else n).reload
            || any relevant masks)
          ≡ true
    by_mask true e = refl
    by_mask false e = ap (λ b. n.reload || (b || any relevant masks)) (sym e) ∙ h

read_loop-reload :
    (reads : List Read) (n : Needs) → n.reload ≡ true → (read_loop reads n).1.reload ≡ true
unfolding read_loop
read_loop-reload [] n h = h
read_loop-reload (events masks ∷ reads) n h =
    read_loop-reload reads (scan_events masks n)
      (scan_events-reload masks n (ap (λ b. b || any relevant masks) h))
read_loop-reload (again ∷ reads) n h = h
read_loop-reload (broken ∷ reads) n h = h

loader-handles :
    (k : World) (q : Poll) (w : Watch)
    → w.force_reload ≡ false
    → w.supported ≡ true
    → config_loader k q w ≡ inotify_handle k q w
unfolding config_loader
loader-handles k q w calm on =
    ap (λ b. by_mode k q (if b then forced k w else w)) calm
    ∙ ap (λ b. if b then inotify_handle k q w else config_reload k w) on

module _ (k : World) (cfg : AppConfig) (m : ℕ) (c : Text) (p : Poll) where
  -- Fresh now, or after the next round.
  abbrev Soon : Watch → Type 0
  Soon w = IsFresh k cfg m c w ⊎ IsFresh k cfg m c (config_loader k p w)

  -- Without inotify and without a time stamp the next round loads the file.
  disabled-Soon :
      (w : Watch)
      → IsFile k w cfg m c
      → w.force_reload ≡ false
      → w.last_mtime ≡ no_mtime
      → Soon (disable_inotify w)
  unfolding disable_inotify config_loader
  disabled-Soon w h calm old = inr (
      subst
        (λ b.
          IsFresh k cfg m c
            (by_mode k p (if b then forced k (disable_inotify w) else disable_inotify w)))
        (sym calm)
        (config_reload-IsFresh k (disable_inotify w) cfg m c
          (record { loaded_yet = h.loaded_yet; mtime = h.mtime; content = h.content }) old))

  watched-Soon :
      (o : Option ℕ) (n : Needs) (w : Watch)
      → n.reload ≡ true
      → IsFile k w cfg m c
      → w.force_reload ≡ false
      → w.last_mtime ≡ no_mtime
      → Soon (after_rewatch k n (watched w.config_file o w))
  watched-Soon none n w r h calm old = disabled-Soon w h calm old
  watched-Soon (some wd) n w r h calm old = rw r (
      inl (
        config_reload-IsFresh k (record w { wd = some wd }) cfg m c
          (record { loaded_yet = h.loaded_yet; mtime = h.mtime; content = h.content }) old))

  rewatch-Soon :
      (n : Needs) (w : Watch)
      → n.reload ≡ true
      → IsFile k w cfg m c
      → w.force_reload ≡ false
      → w.last_mtime ≡ no_mtime
      → Soon (after_rewatch k n (inotify_rewatch k w))
  unfolding inotify_rewatch
  rewatch-Soon n w r h calm old =
      if_elim {A = Bool × Watch} (λ t. Soon (after_rewatch k n t)) (contains_char 0 w.config_file)
        (disabled-Soon w h calm old) (watched-Soon (k.add_watch w.config_file) n w r h calm old)

  -- All ends of a round that read an event which counts.
  after_reads-Soon :
      (o : Option Needs) (n : Needs) (w : Watch)
      → n.reload ≡ true
      → IsFile k w cfg m c
      → w.force_reload ≡ false
      → Soon (after_reads k w (o, n))
  after_reads-Soon o n w r h calm = by_end o
    where
      old : Watch
      old = record w { last_mtime = no_mtime }

      forgotten : forget_mtime n w ≡ old
      forgotten = ap (λ b. if b then record w { last_mtime = no_mtime } else w) r

      old-IsFile : IsFile k old cfg m c
      old-IsFile = record { loaded_yet = h.loaded_yet; mtime = h.mtime; content = h.content }

      by_end : (o : Option Needs) → Soon (after_reads k w (o, n))
      by_end none =
          subst (λ u. Soon (disable_inotify u)) (sym forgotten)
            (disabled-Soon old old-IsFile calm refl)
      by_end (some x) =
          subst
            (λ u. Soon (
              if n.rewatch
              then after_rewatch k n (inotify_rewatch k u)
              else reload_if k n.reload u))
            (sym forgotten)
            (if_elim Soon n.rewatch (rewatch-Soon n old r old-IsFile calm refl) (
              subst (λ b. Soon (reload_if k b old)) (sym r)
                (inl (config_reload-IsFresh k old cfg m c old-IsFile refl))))

-- When the watcher runs, no reload is forced, and inotify reports that the rule file was written,
-- deleted or moved, the configuration in force is that of the file after this round of the loader or
-- the next, where the file can be read; whatever else is reported, and also where watching fails.
pub config_loader-IsFresh :
    (k : World) (cfg : AppConfig) (m : ℕ) (c : Text) (masks : List ℕ) (more : List Read) (p : Poll)
    (w : Watch)
    → IsFile k w cfg m c
    → w.supported ≡ true
    → w.force_reload ≡ false
    → any relevant masks ≡ true
    → IsFresh k cfg m c (config_loader k (ready (events masks ∷ more)) w)
      ⊎ IsFresh k cfg m c (config_loader k p (config_loader k (ready (events masks ∷ more)) w))
unfolding config_loader inotify_handle read_loop
config_loader-IsFresh k cfg m c masks more p w h on calm seen =
    let first : Needs = scan_events masks (record { reload = false; rewatch = false }) in
    let ended = read_loop more first in
    let asked =
      read_loop-reload more first
        (scan_events-reload masks (record { reload = false; rewatch = false }) seen) in
    subst (Soon k cfg m c p) (sym (loader-handles k (ready (events masks ∷ more)) w calm on))
      (after_reads-Soon k cfg m c p ended.0 ended.1 w asked h calm)

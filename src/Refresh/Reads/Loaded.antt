-- ===== src/Refresh/Reads/Loaded.antt =====
-- What `refresh_set_config` of AppOpt/src/refresh.rs writes, as `load_global_config` loads it.
use app_opt.Base.{
  ℕ, ◌^◌, ◌<◌, false, ◌≡◌, ◌∙◌, refl, ap, List, [], ◌∷◌, ◌++◌, Bool-cases, inl, inr, if◌then◌else◌,
}
use app_opt.Base.Text.{
  Text, codes, eq_text, trim, split_first, strip_prefix, IsSolid, trim_solid, Lacks,
  split_first-append,
}
use app_opt.Refresh.{RefreshState, parse_mode}
use app_opt.Refresh.Edit.{print_i32, Found, refresh_set_config}
use app_opt.Refresh.Reads.Laws.{
  trim_line, timeout-key, active-key, idle-key, print_i32-IsSolid, parse_i32-print_i32, in_i32,
}
use app_opt.Refresh.Reads.Written.{read_lines, Reader, read_lines-refresh_set_config}
use app_opt.Refresh.Settings.{
  is_comment, parse_i32, set_timeout, global_key, global_pair, global_line, global_lines,
}

abbrev loaded : Text → RefreshState → RefreshState
loaded line s = global_line (trim line) s

global_lines_lem : (ls : List Text) (s : RefreshState) → global_lines ls s ≡ read_lines loaded ls s
unfolding global_lines read_lines
global_lines_lem [] s = refl
global_lines_lem (line ∷ ls) s = global_lines_lem ls (loaded line s)

-- A comment and a line whose key says nothing leave the state alone.
either :
    (line : Text) (s : RefreshState)
    → global_pair (split_first b'=' line) s ≡ s
    → global_line line s ≡ s
unfolding global_line
either line s h = elim (Bool-cases (is_comment line)) [
  | inl skipped ↦ rw skipped refl
  | inr read ↦ rw read h
]

ignored_key :
    (k v : Text) (s : RefreshState)
    → eq_text k (codes "timeout") ≡ false
    → eq_text k (codes "active") ≡ false
    → eq_text k (codes "idle") ≡ false
    → global_key k v s ≡ s
unfolding global_key
ignored_key k v s n m l = rw (n, m, l) refl

key_timeout :
    (v : Text) (s : RefreshState)
    → global_key (codes "timeout") v s ≡ set_timeout (parse_i32 (trim v)) s
unfolding global_key eq_text
key_timeout v s = refl

key_active :
    (v : Text) (s : RefreshState)
    → global_key (codes "active") v s ≡ record s { active_mode = parse_mode v }
unfolding global_key eq_text
key_active v s = refl

key_idle :
    (v : Text) (s : RefreshState)
    → global_key (codes "idle") v s ≡ record s { idle_mode = parse_mode v }
unfolding global_key eq_text
key_idle v s = refl

-- A line `key=value` that is not a comment is loaded by its key.
loaded_line :
    (k v : Text) (s : RefreshState)
    → IsSolid k
    → Lacks b'=' k
    → IsSolid v
    → is_comment (k ++ (b'=' ∷ v)) ≡ false
    → loaded (k ++ (b'=' ∷ v)) s ≡ global_key k v s
unfolding global_line
loaded_line k v s sk lk sv full =
    ap (λ l. global_line l s) (trim_line k v sk sv)
    ∙ rw full refl
    ∙ ap (λ o. global_pair o s) (split_first-append b'=' k v lk)
    ∙ ap (λ x. global_key x v s) (trim_solid k sk)

module _ (t : ℕ) (a i : Text) (above : 0 < t) (below : t < 2 ^ 31) (sa : IsSolid a) (si : IsSolid i)
    (s : RefreshState) where
  abbrev mix : Found → RefreshState
  mix f = record s {
    timeout_seconds = if f.timeout then t else s.timeout_seconds;
    active_mode = if f.active then parse_mode a else s.active_mode;
    idle_mode = if f.idle then parse_mode i else s.idle_mode;
  }

  timeout_line :
      (g : RefreshState)
      → loaded (codes "timeout=" ++ print_i32 t) g ≡ record g { timeout_seconds = t }
  unfolding strip_prefix
  timeout_line g =
      loaded_line (codes "timeout") (print_i32 t) g timeout-key.0 timeout-key.1
        (print_i32-IsSolid t below) refl
      ∙ key_timeout (print_i32 t) g
      ∙ ap (λ o. set_timeout o g) (parse_i32-print_i32 t below)
      ∙ ap (λ b. if b then record g { timeout_seconds = t } else g) (in_i32 t above below)

  active_line :
      (g : RefreshState) → loaded (codes "active=" ++ a) g ≡ record g { active_mode = parse_mode a }
  unfolding strip_prefix
  active_line g =
      loaded_line (codes "active") a g active-key.0 active-key.1 sa refl ∙ key_active a g

  idle_line :
      (g : RefreshState) → loaded (codes "idle=" ++ i) g ≡ record g { idle_mode = parse_mode i }
  unfolding strip_prefix
  idle_line g = loaded_line (codes "idle") i g idle-key.0 idle-key.1 si refl ∙ key_idle i g

  reader : Reader t a i loaded mix
  reader = record {
    timeout_line = λ f. timeout_line (mix f);
    active_line = λ f. active_line (mix f);
    idle_line = λ f. idle_line (mix f);
    no_key = λ line g h. either (trim line) g (ap (λ o. global_pair o g) h);
    other_key = λ k v line g h n m l.
        either (trim line) g (ap (λ o. global_pair o g) h ∙ ignored_key (trim k) v g n m l);
  }

  -- Whatever lines the file of the refresh rates has, and whatever the controller had before,
  -- loading the lines that the web interface writes gives it the timeout and the modes of the rates
  -- written, and changes nothing else: for a positive timeout in an i32, and rates without
  -- whitespace.
  pub global_lines-refresh_set_config :
      (ls : List Text)
      → global_lines (refresh_set_config t a i ls) s
        ≡ record s { timeout_seconds = t; active_mode = parse_mode a; idle_mode = parse_mode i }
  global_lines-refresh_set_config ls =
      global_lines_lem (refresh_set_config t a i ls) s
      ∙ read_lines-refresh_set_config t a i loaded mix reader ls

-- ===== src/Refresh/Reads/Laws.antt =====
-- What `refresh_set_config` of AppOpt/src/refresh.rs writes, as `refresh_get_config` reads it.
use app_opt.Base.{
  ℕ, ◌^◌, ◌<◌, true, false, ◌&&◌, ◌≡◌, ◌≢◌, ◌∙◌, sym, subst, refl, ap, List, [], ◌∷◌, ◌++◌, some,
  All, All-append, ltb, arith, if◌then◌else◌,
}
use app_opt.Base.Decimal.{decimal, parse_uint}
use app_opt.Base.Decimal.RoundTrip.{IsDigit, decimal-IsDigit, decimal-ne-nil, parse_uint-decimal}
use app_opt.Base.Text.{
  Text, codes, eq_text, trim, split_first, is_whitespace, IsSolid, trim_solid, Lacks,
  split_first-append, contains_char, contains_char-Lacks,
}
use app_opt.Refresh.Edit.{print_i32, Found, refresh_set_config}
use app_opt.Refresh.Reads.{
  Shown, shown_timeout, shown_key, shown_pair, shown_lines, refresh_get_config,
}
use app_opt.Refresh.Reads.Written.{read_lines, Reader, read_lines-refresh_set_config}
use app_opt.Refresh.Settings.{parse_i32}

digit-is_whitespace : (c : ℕ) → IsDigit c → is_whitespace c ≡ false
unfolding is_whitespace
digit-is_whitespace c h = ground arith

digits-IsSolid : (s : Text) → All IsDigit s → IsSolid s
digits-IsSolid [] h = tt
digits-IsSolid (c ∷ s) h = (digit-is_whitespace c h.0, digits-IsSolid s h.1)

parse_i32-digits : (s : Text) → All IsDigit s → s ≢ [] → parse_i32 s ≡ parse_uint (2 ^ 31) s
unfolding parse_i32
parse_i32-digits [] h n = absurd (n refl)
parse_i32-digits (c ∷ s) h n = ground (arith, h.0)

print_i32-decimal : (t : ℕ) → t < 2 ^ 31 → print_i32 t ≡ decimal t
print_i32-decimal t h = ground arith

pub parse_i32-print_i32 : (t : ℕ) → t < 2 ^ 31 → parse_i32 (trim (print_i32 t)) ≡ some t
parse_i32-print_i32 t h =
    ap (λ s. parse_i32 (trim s)) (print_i32-decimal t h)
    ∙ ap parse_i32 (trim_solid (decimal t) (digits-IsSolid (decimal t) (decimal-IsDigit t)))
    ∙ parse_i32-digits (decimal t) (decimal-IsDigit t) (decimal-ne-nil t)
    ∙ parse_uint-decimal (2 ^ 31) t h

pub print_i32-IsSolid : (t : ℕ) → t < 2 ^ 31 → IsSolid (print_i32 t)
print_i32-IsSolid t h =
    subst IsSolid (sym (print_i32-decimal t h)) (digits-IsSolid (decimal t) (decimal-IsDigit t))

pub trim_line : (k v : Text) → IsSolid k → IsSolid v → trim (k ++ (b'=' ∷ v)) ≡ k ++ (b'=' ∷ v)
unfolding is_whitespace
trim_line k v sk sv =
    trim_solid (k ++ (b'=' ∷ v))
      (All-append (λ c. is_whitespace c ≡ false) k (b'=' ∷ v) sk (refl, sv))

-- A line `key=value` gives its parts back.
split_line :
    (k v : Text)
    → IsSolid k
    → Lacks b'=' k
    → IsSolid v
    → split_first b'=' (trim (k ++ (b'=' ∷ v))) ≡ some (k, v)
split_line k v sk lk sv =
    ap (split_first b'=') (trim_line k v sk sv) ∙ split_first-append b'=' k v lk

pub timeout-key : IsSolid (codes "timeout") × Lacks b'=' (codes "timeout")
unfolding is_whitespace contains_char
timeout-key = (
  (refl, (refl, (refl, (refl, (refl, (refl, (refl, tt))))))),
  contains_char-Lacks b'=' (codes "timeout") refl,
)

pub active-key : IsSolid (codes "active") × Lacks b'=' (codes "active")
unfolding is_whitespace contains_char
active-key = (
  (refl, (refl, (refl, (refl, (refl, (refl, tt)))))),
  contains_char-Lacks b'=' (codes "active") refl,
)

pub idle-key : IsSolid (codes "idle") × Lacks b'=' (codes "idle")
unfolding is_whitespace contains_char
idle-key = ((refl, (refl, (refl, (refl, tt)))), contains_char-Lacks b'=' (codes "idle") refl)

key_timeout :
    (v : Text) (g : Shown) → shown_key (codes "timeout") v g ≡ shown_timeout (parse_i32 (trim v)) g
unfolding shown_key eq_text
key_timeout v g = refl

key_active : (v : Text) (g : Shown) → shown_key (codes "active") v g ≡ record g { active = trim v }
unfolding shown_key eq_text
key_active v g = refl

key_idle : (v : Text) (g : Shown) → shown_key (codes "idle") v g ≡ record g { idle = trim v }
unfolding shown_key eq_text
key_idle v g = refl

-- A line `key=value` is read by its key.
shown_line :
    (k v : Text) (g : Shown)
    → IsSolid k
    → Lacks b'=' k
    → IsSolid v
    → shown_pair (split_first b'=' (trim (k ++ (b'=' ∷ v)))) g ≡ shown_key k v g
shown_line k v g sk lk sv =
    ap (λ o. shown_pair o g) (split_line k v sk lk sv) ∙ ap (λ s. shown_key s v g) (trim_solid k sk)

pub in_i32 : (n : ℕ) → 0 < n → n < 2 ^ 31 → (ltb 0 n && ltb n (2 ^ 31)) ≡ true
in_i32 n h k = ground arith

other_key :
    (k v : Text) (g : Shown)
    → eq_text k (codes "timeout") ≡ false
    → eq_text k (codes "active") ≡ false
    → eq_text k (codes "idle") ≡ false
    → shown_key k v g ≡ g
unfolding shown_key
other_key k v g n m l = rw (n, m, l) refl

abbrev shown : Text → Shown → Shown
shown line g = shown_pair (split_first b'=' (trim line)) g

shown_lines_lem : (ls : List Text) (g : Shown) → shown_lines ls g ≡ read_lines shown ls g
unfolding shown_lines read_lines
shown_lines_lem [] g = refl
shown_lines_lem (line ∷ ls) g = shown_lines_lem ls (shown line g)

module _ (t : ℕ) (a i : Text) (above : 0 < t) (below : t < 2 ^ 31) (sa : IsSolid a)
    (si : IsSolid i) where
  abbrev mix : Found → Shown
  mix f = record {
    timeout = if f.timeout then t else 30;
    active = if f.active then a else codes "120";
    idle = if f.idle then i else codes "60";
  }

  timeout_line : (g : Shown) → shown (codes "timeout=" ++ print_i32 t) g ≡ record g { timeout = t }
  timeout_line g =
      shown_line (codes "timeout") (print_i32 t) g timeout-key.0 timeout-key.1
        (print_i32-IsSolid t below)
      ∙ key_timeout (print_i32 t) g
      ∙ ap (λ o. shown_timeout o g) (parse_i32-print_i32 t below)
      ∙ ap (λ b. if b then record g { timeout = t } else g) (in_i32 t above below)

  active_line : (g : Shown) → shown (codes "active=" ++ a) g ≡ record g { active = a }
  active_line g =
      shown_line (codes "active") a g active-key.0 active-key.1 sa
      ∙ key_active a g
      ∙ ap (λ s. record g { active = s }) (trim_solid a sa)

  idle_line : (g : Shown) → shown (codes "idle=" ++ i) g ≡ record g { idle = i }
  idle_line g =
      shown_line (codes "idle") i g idle-key.0 idle-key.1 si
      ∙ key_idle i g
      ∙ ap (λ s. record g { idle = s }) (trim_solid i si)

  reader : Reader t a i shown mix
  reader = record {
    timeout_line = λ f. timeout_line (mix f);
    active_line = λ f. active_line (mix f);
    idle_line = λ f. idle_line (mix f);
    no_key = λ line g h. ap (λ o. shown_pair o g) h;
    other_key = λ k v line g h n m l. ap (λ o. shown_pair o g) h ∙ other_key (trim k) v g n m l;
  }

  -- Whatever lines the file of the refresh rates has, the global timeout and rates that the web
  -- interface writes into it are those that it shows afterwards: for a positive timeout in an i32,
  -- and rates without whitespace.
  pub refresh_get_config-refresh_set_config :
      (ls : List Text)
      → refresh_get_config (refresh_set_config t a i ls)
        ≡ record { timeout = t; active = a; idle = i }
  unfolding refresh_get_config
  refresh_get_config-refresh_set_config ls =
      shown_lines_lem (refresh_set_config t a i ls) _
      ∙ read_lines-refresh_set_config t a i shown mix reader ls

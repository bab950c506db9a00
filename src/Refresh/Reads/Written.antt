-- ===== src/Refresh/Reads/Written.antt =====
-- The lines that `refresh_set_config` of AppOpt/src/refresh.rs writes, for any reader that goes over lines.
use app_opt.Base.{
  ℕ, Bool, true, false, ◌≡◌, ◌∙◌, refl, ap, List, [], ◌∷◌, ◌++◌, Option, none, some, Bool-cases,
  inl, inr,
}
use app_opt.Base.Text.{Text, codes, eq_text, trim, split_first}
use app_opt.Refresh.Edit.{print_i32, Found, key_of, set_line, set_lines, unless, refresh_set_config}

unfoldable pub read_lines : {S : Type 0} → (Text → S → S) → List Text → S → S
read_lines read [] g = g
read_lines read (line ∷ ls) g = read_lines read ls (read line g)

-- What a reader makes of each line: `mix f` is its state where the keys of `f` were written.
pub record Reader {S : Type 0} (t : ℕ) (a i : Text) (read : Text → S → S) (mix : Found → S)
    : Type 0 where
  pub timeout_line :
      (f : Found)
      → read (codes "timeout=" ++ print_i32 t) (mix f) ≡ mix (record f { timeout = true })
  pub active_line :
      (f : Found) → read (codes "active=" ++ a) (mix f) ≡ mix (record f { active = true })
  pub idle_line : (f : Found) → read (codes "idle=" ++ i) (mix f) ≡ mix (record f { idle = true })
  pub no_key : (line : Text) (g : S) → split_first b'=' (trim line) ≡ none → read line g ≡ g
  pub other_key :
      (k v line : Text) (g : S)
      → split_first b'=' (trim line) ≡ some (k, v)
      → eq_text (trim k) (codes "timeout") ≡ false
      → eq_text (trim k) (codes "active") ≡ false
      → eq_text (trim k) (codes "idle") ≡ false
      → read line g ≡ g

module _ {S : Type 0} (t : ℕ) (a i : Text) (read : Text → S → S) (mix : Found → S)
    (r : Reader t a i read mix) where
  -- What is read of a line that `refresh_set_config` went over.
  abbrev Read : (Text × Found) → Found → Type 0
  Read w f = read w.0 (mix f) ≡ mix w.1

  inactive :
      (k v line : Text) (f : Found)
      → split_first b'=' (trim line) ≡ some (k, v)
      → eq_text (trim k) (codes "timeout") ≡ false
      → eq_text (trim k) (codes "active") ≡ false
      → Read (set_line (some (trim k)) (print_i32 t) a i line f) f
  inactive k v line f h n m = elim (Bool-cases (eq_text (trim k) (codes "idle"))) [
    | inl e ↦ rw (n, m, e) (r.idle_line f)
    | inr l ↦ rw (n, m, l) (r.other_key k v line (mix f) h n m l)
  ]

  untimed :
      (k v line : Text) (f : Found)
      → split_first b'=' (trim line) ≡ some (k, v)
      → eq_text (trim k) (codes "timeout") ≡ false
      → Read (set_line (some (trim k)) (print_i32 t) a i line f) f
  untimed k v line f h n = elim (Bool-cases (eq_text (trim k) (codes "active"))) [
    | inl e ↦ rw (n, e) (r.active_line f)
    | inr m ↦ inactive k v line f h n m
  ]

  keyed :
      (k v line : Text) (f : Found)
      → split_first b'=' (trim line) ≡ some (k, v)
      → Read (set_line (some (trim k)) (print_i32 t) a i line f) f
  keyed k v line f h = elim (Bool-cases (eq_text (trim k) (codes "timeout"))) [
    | inl e ↦ rw e (r.timeout_line f)
    | inr n ↦ untimed k v line f h n
  ]

  parted :
      (o : Option (Text × Text)) (line : Text) (f : Found)
      → split_first b'=' (trim line) ≡ o
      → Read (set_line (key_of o) (print_i32 t) a i line f) f
  parted none line f h = r.no_key line (mix f) h
  parted (some (k, v)) line f h = keyed k v line f h

  all_lines :
      (ls rest : List Text) (f : Found)
      → read_lines read ((set_lines (print_i32 t) a i ls f).0 ++ rest) (mix f)
        ≡ read_lines read rest (mix (set_lines (print_i32 t) a i ls f).1)
  unfolding read_lines set_lines
  all_lines [] rest f = refl
  all_lines (line ∷ ls) rest f =
      ap (read_lines read ((set_lines (print_i32 t) a i ls this.1).0 ++ rest))
        (parted (split_first b'=' (trim line)) line f refl)
      ∙ all_lines ls rest this.1
    where
      this : Text × Found
      this = set_line (key_of (split_first b'=' (trim line))) (print_i32 t) a i line f

  -- The lines that are appended for the keys that no line had.
  abbrev tail : Bool → Bool → List Text
  tail y z = unless y (codes "active=" ++ a) ++ unless z (codes "idle=" ++ i)

  abbrev every : Found
  every = record { timeout = true; active = true; idle = true }

  timed :
      (y z : Bool)
      → read_lines read (tail y z) (mix (record { timeout = true; active = y; idle = z }))
        ≡ mix every
  unfolding read_lines
  timed true true = refl
  timed true false = r.idle_line _
  timed false true = r.active_line _
  timed false false = ap (read (codes "idle=" ++ i)) (r.active_line _) ∙ r.idle_line _

  missing :
      (x y z : Bool)
      → read_lines read
          (unless x (codes "timeout=" ++ print_i32 t) ++ tail y z)
          (mix (record { timeout = x; active = y; idle = z }))
        ≡ mix every
  unfolding read_lines
  missing true y z = timed y z
  missing false y z = ap (read_lines read (tail y z)) (r.timeout_line _) ∙ timed y z

  pub read_lines-refresh_set_config :
      (ls : List Text)
      → read_lines read
          (refresh_set_config t a i ls)
          (mix (record { timeout = false; active = false; idle = false }))
        ≡ mix (record { timeout = true; active = true; idle = true })
  unfolding refresh_set_config
  read_lines-refresh_set_config ls =
      all_lines ls _ (record { timeout = false; active = false; idle = false }) ∙ missing _ _ _

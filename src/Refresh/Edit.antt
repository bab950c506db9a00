-- ===== src/Refresh/Edit.antt =====
-- The functions of AppOpt/src/refresh.rs behind the web interface: they read refresh_config.conf, or
-- write it and ask for a reload. A file is the list of its lines.
use app_opt.Base.{
  ℕ, ◌-◌, ◌^◌, Bool, true, false, not, ◌||◌, List, [], ◌∷◌, ◌++◌, Option, none, some, ltb,
  if◌then◌else◌, ◌≡◌, refl, ap, ◌∙◌,
}
use app_opt.Base.Decimal.{decimal}
use app_opt.Base.Dict.{lookup, lookup-insert, text_eq}
use app_opt.Base.Text.{Text, codes, eq_text, trim, split, split_first}
use app_opt.Refresh.{AppRefreshConfig}
use app_opt.Refresh.Settings.{is_comment, app_fields, app_lines, insert_app, parse_i32, or_30}

-- An i32 in decimal, from its bit pattern.
abbrev pub print_i32 : ℕ → Text
print_i32 t = if ltb t (2 ^ 31) then decimal t else b'-' ∷ decimal (2 ^ 32 - t)

-- The local variables of `refresh_set_config`: which keys the lines so far have.
pub record Found : Type 0 where
  pub timeout : Bool
  pub active : Bool
  pub idle : Bool

abbrev pub key_of : Option (Text × Text) → Option Text
key_of none = none
key_of (some (k, v)) = some (trim k)

abbrev pub set_line : Option Text → Text → Text → Text → Text → Found → Text × Found
set_line none timeout active idle line f = (line, f)
set_line (some k) timeout active idle line f =
    if eq_text k (codes "timeout")
    then (codes "timeout=" ++ timeout, record f { timeout = true })
    else if eq_text k (codes "active")
    then (codes "active=" ++ active, record f { active = true })
    else if eq_text k (codes "idle")
    then (codes "idle=" ++ idle, record f { idle = true })
    else (line, f)

unfoldable pub set_lines : Text → Text → Text → List Text → Found → List Text × Found
set_lines timeout active idle [] f = ([], f)
set_lines timeout active idle (line ∷ ls) f =
    let this = set_line (key_of (split_first b'=' (trim line))) timeout active idle line f in
    let rest = set_lines timeout active idle ls this.1 in (this.0 ∷ rest.0, rest.1)

abbrev pub unless : Bool → Text → List Text
unless found line = if found then [] else line ∷ []

-- The lines that `refresh_set_config` writes.
unfoldable pub refresh_set_config : ℕ → Text → Text → List Text → List Text
unfolding set_lines
refresh_set_config timeout active idle ls =
    let written =
      set_lines (print_i32 timeout) active idle ls
        (record { timeout = false; active = false; idle = false }) in
    written.0
    ++ (unless written.1.timeout (codes "timeout=" ++ print_i32 timeout)
        ++ (unless written.1.active (codes "active=" ++ active)
            ++ unless written.1.idle (codes "idle=" ++ idle)))

abbrev fields_of : List Text → Option (Text × (ℕ × (Text × Text)))
fields_of (pkg ∷ timeout ∷ active ∷ idle ∷ []) =
    some (trim pkg, (or_30 (parse_i32 (trim timeout)), (trim active, trim idle)))
fields_of _ = none

abbrev and_then :
    Option (Text × (ℕ × (Text × Text)))
    → List (Text × (ℕ × (Text × Text)))
    → List (Text × (ℕ × (Text × Text)))
and_then none apps = apps
and_then (some a) apps = a ∷ apps

unfoldable pub refresh_get_apps : List Text → List (Text × (ℕ × (Text × Text)))
unfolding parse_i32
refresh_get_apps [] = []
refresh_get_apps (line ∷ ls) =
    let rest = refresh_get_apps ls in
    if is_comment (trim line) then rest else and_then (fields_of (split b',' (trim line))) rest

-- Whether the text before the first comma is the package.
abbrev pub names : Text → List Text → Bool
names pkg [] = false
names pkg (first ∷ _) = eq_text (trim first) pkg

-- The loop of `refresh_add_app`, and the line that it appends where no line was replaced.
unfoldable pub replace_app : Text → Text → List Text → List Text
replace_app pkg new_line [] = new_line ∷ []
replace_app pkg new_line (line ∷ ls) =
    let rest = replace_app pkg new_line ls in
    if is_comment (trim line)
    then line ∷ rest
    else if names pkg (split b',' line)
    then new_line ∷ ls
    else line ∷ rest

unfoldable pub refresh_add_app : Text → ℕ → Text → Text → List Text → List Text
unfolding replace_app
refresh_add_app pkg timeout active idle ls =
    replace_app pkg (pkg ++ (b',' ∷ (print_i32 timeout ++ (b',' ∷ (active ++ (b',' ∷ idle)))))) ls

unfoldable pub refresh_del_app : Text → List Text → List Text
refresh_del_app pkg [] = []
refresh_del_app pkg (line ∷ ls) =
    let rest = refresh_del_app pkg ls in
    if is_comment (trim line) || not (names pkg (split b',' (trim line))) then line ∷ rest else rest

insert_app-other :
    (pkg : Text) (parts : List Text) (m : List (Text × AppRefreshConfig))
    → names pkg parts ≡ false
    → lookup pkg (insert_app (app_fields parts) m) ≡ lookup pkg m
unfolding app_fields
insert_app-other pkg [] m h = refl
insert_app-other pkg (a ∷ []) m h = refl
insert_app-other pkg (a ∷ b ∷ []) m h = refl
insert_app-other pkg (a ∷ b ∷ c ∷ []) m h = refl
insert_app-other pkg (a ∷ b ∷ c ∷ d ∷ []) m h = lookup-insert (trim a) pkg _ m ∙ rw h refl
insert_app-other pkg (a ∷ b ∷ c ∷ d ∷ e ∷ rest) m h = refl

-- One line more, whatever the rest of the lines do.
line-keeps :
    (pkg line : Text) (rest : List Text) (m : List (Text × AppRefreshConfig)) (c n : Bool)
    → ((next : List (Text × AppRefreshConfig)) → lookup pkg (app_lines rest next) ≡ lookup pkg next)
    → is_comment (trim line) ≡ c
    → names pkg (split b',' (trim line)) ≡ n
    → lookup pkg (app_lines (if c || not n then line ∷ rest else rest) m) ≡ lookup pkg m
unfolding app_lines
line-keeps pkg line rest m true n later comment _ =
    later _
    ∙ ap (λ b. lookup pkg (if b then m else insert_app (app_fields (split b',' (trim line))) m))
        comment
line-keeps pkg line rest m false true later _ _ = later m
line-keeps pkg line rest m false false later full other =
    later _
    ∙ ap (λ b. lookup pkg (if b then m else insert_app (app_fields (split b',' (trim line))) m))
        full
    ∙ insert_app-other pkg (split b',' (trim line)) m other

-- After the lines of an application are deleted, loading the lines that are left gives it no
-- configuration: whatever the map was before is what it says of the application.
pub app_lines-refresh_del_app :
    (pkg : Text) (ls : List Text) (m : List (Text × AppRefreshConfig))
    → lookup pkg (app_lines (refresh_del_app pkg ls) m) ≡ lookup pkg m
unfolding app_lines refresh_del_app
app_lines-refresh_del_app pkg [] m = refl
app_lines-refresh_del_app pkg (line ∷ ls) m =
    line-keeps pkg line (refresh_del_app pkg ls) m (is_comment (trim line))
      (names pkg (split b',' (trim line))) (app_lines-refresh_del_app pkg ls) refl refl

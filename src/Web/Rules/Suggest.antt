-- ===== src/Web/Rules/Suggest.antt =====
-- The suggestions of AppOpt/src/web.rs for names of packages and threads.
use app_opt.Base.{
  ℕ, zero, suc, ◌+◌, ◌≤◌, Bool, true, false, not, ◌&&◌, ◌||◌, ◌≡◌, refl, List, [], ◌∷◌, Option,
  none, some, map, take, length, filter, ltb, leb, ◌==◌, arith, if_elim, if◌then◌else◌, All,
}
use app_opt.Base.Text.{Text, codes, is_empty, starts_with, eq_text, trim, contains_char, byte_len}
use app_opt.Config.Load.{max_pkg_len}
use app_opt.Web.{Serde, Reply, err_json, contains_text, token_ok}
use app_opt.Web.Service.{bad_json}

-- `to_ascii_lowercase`
abbrev lower : ℕ → ℕ
lower c = if leb b'A' c && leb c b'Z' then c + 32 else c

unfoldable pub to_ascii_lowercase : Text → Text
to_ascii_lowercase [] = []
to_ascii_lowercase (c ∷ s) = lower c ∷ to_ascii_lowercase s

-- The order of texts. The order of the code points is the one of the bytes of their UTF-8 forms.
unfoldable pub text_less : Text → Text → Bool
text_less [] [] = false
text_less [] (y ∷ ys) = true
text_less (x ∷ xs) [] = false
text_less (x ∷ xs) (y ∷ ys) = ltb x y || (x == y && text_less xs ys)

-- `(u8, Reverse<usize>, String)`
pub record Ranked : Type 0 where
  pub rank : ℕ
  pub count : ℕ
  pub name : Text

abbrev pub before : Ranked → Ranked → Bool
before a b =
    ltb a.rank b.rank
    || (a.rank == b.rank
        && (ltb b.count a.count || (a.count == b.count && text_less a.name b.name)))

abbrev pub rank_of : Text → Text → ℕ
rank_of lq name =
    let ln = to_ascii_lowercase name in
    if starts_with lq ln then 0 else if contains_text lq ln then 1 else 2

unfoldable pub ranked : Text → List (Text × ℕ) → List Ranked
ranked lq [] = []
ranked lq ((n, c) ∷ counts) =
    let rest = ranked lq counts in
    if ltb (rank_of lq n) 2
    then record { rank = rank_of lq n; count = c; name = n } ∷ rest
    else rest

unfoldable pub insert_ranked : Ranked → List Ranked → List Ranked
insert_ranked a [] = a ∷ []
insert_ranked a (b ∷ bs) =
    let rest = insert_ranked a bs in if before b a then b ∷ rest else a ∷ b ∷ bs

-- `sort_unstable`: no two names are equal.
unfoldable pub sort_ranked : List Ranked → List Ranked
unfolding insert_ranked
sort_ranked [] = []
sort_ranked (a ∷ more) = insert_ranked a (sort_ranked more)

abbrev named : Ranked → Text × ℕ
named r = (r.name, r.count)

unfoldable pub rank_top : List (Text × ℕ) → Text → List (Text × ℕ)
unfolding ranked sort_ranked
rank_top counts lq = map named (take 20 (sort_ranked (ranked lq counts)))

-- `*counts.entry(name).or_insert(0) += 1`, in a map whose order is set by `rank_top`.
unfoldable pub bump : Text → List (Text × ℕ) → List (Text × ℕ)
bump name [] = (name, 1) ∷ []
bump name ((n, c) ∷ counts) =
    let rest = bump name counts in if eq_text n name then (n, c + 1) ∷ counts else (n, c) ∷ rest

-- The names in the directory of the applications that may be packages.
unfoldable pub installed_pkgs : List Text → List Text
installed_pkgs dirs = filter (λ n. contains_char b'.' n && not (starts_with (codes ".") n)) dirs

unfoldable pub count_pkgs : List (Option Text) → List (Text × ℕ) → List (Text × ℕ)
unfolding bump
count_pkgs [] counts = counts
count_pkgs (none ∷ procs) counts = count_pkgs procs counts
count_pkgs (some name ∷ procs) counts =
    count_pkgs procs (if contains_char b'.' name then bump name counts else counts)

-- The directories, and the command lines of the processes.
unfoldable pub suggest_pkgs : List Text → List (Option Text) → Text → List (Text × ℕ)
unfolding installed_pkgs count_pkgs rank_top
suggest_pkgs dirs procs q =
    rank_top (count_pkgs procs (map (λ p. (p, 0)) (installed_pkgs dirs))) (to_ascii_lowercase q)

unfoldable pub count_comms : List Text → List (Text × ℕ) → List (Text × ℕ)
unfolding bump
count_comms [] counts = counts
count_comms (comm ∷ comms) counts = count_comms comms (bump comm counts)

abbrev is_of : Text → Option Text → Bool
is_of pkg none = false
is_of pkg (some name) = eq_text name pkg

-- The processes with their command lines and the names of their threads.
unfoldable pub count_threads :
    Text → List (Option Text × List Text) → List (Text × ℕ) → List (Text × ℕ)
unfolding count_comms
count_threads pkg [] counts = counts
count_threads pkg ((name, comms) ∷ procs) counts =
    count_threads pkg procs (if is_of pkg name then count_comms comms counts else counts)

unfoldable pub suggest_threads : Text → List (Option Text × List Text) → Text → List (Text × ℕ)
unfolding count_threads rank_top
suggest_threads pkg procs q = rank_top (count_threads pkg procs []) (to_ascii_lowercase q)

-- The answer of `suggest_api`.
pub data Suggested : Type 0 where
  failed : Reply → Suggested
  listed : List Text → Suggested

abbrev names : List (Text × ℕ) → List Text
names counts = map (λ e. e.0) counts

abbrev or_blank : Option Text → Text
or_blank none = []
or_blank (some s) = trim s

-- `suggest_api` behind its reads; a blank name of a package counts as none.
unfoldable pub suggest : List Text → List (Option Text × List Text) → Text → Text → Suggested
unfolding suggest_pkgs suggest_threads
suggest dirs procs q pkg =
    if ltb 64 (byte_len q)
    then failed (err_json 400 (codes "q 过长"))
    else if is_empty pkg
    then listed (names (suggest_pkgs dirs (map (λ p. p.0) procs) q))
    else if not (token_ok pkg max_pkg_len)
    then failed (err_json 400 (codes "名称含有非法字符"))
    else listed (names (suggest_threads pkg procs q))

abbrev suggest_value :
    (S : Serde) → List Text → List (Option Text × List Text) → Option S.Value → Suggested
suggest_value S dirs procs none = failed bad_json
suggest_value S dirs procs (some v) =
    suggest dirs procs (or_blank (S.as_str v (codes "q"))) (or_blank (S.as_str v (codes "pkg")))

unfoldable pub suggest_api :
    (S : Serde) → List Text → List (Option Text × List Text) → S.Doc → Suggested
unfolding suggest
suggest_api S dirs procs body = suggest_value S dirs procs (S.from_doc body)

-- A name that has the text that was asked for.
abbrev pub Fits : Text → Ranked → Type 0
Fits lq r = ltb (rank_of lq r.name) 2 ≡ true

ranked_cons-Fits :
    (lq n : Text) (c : ℕ) (rest : List Ranked) (b : Bool)
    → ltb (rank_of lq n) 2 ≡ b
    → All (Fits lq) rest
    → All (Fits lq) (if b then record { rank = rank_of lq n; count = c; name = n } ∷ rest else rest)
ranked_cons-Fits lq n c rest true e h = (e, h)
ranked_cons-Fits lq n c rest false e h = h

ranked-Fits : (lq : Text) (counts : List (Text × ℕ)) → All (Fits lq) (ranked lq counts)
unfolding ranked
ranked-Fits lq [] = tt
ranked-Fits lq ((n, c) ∷ counts) =
    ranked_cons-Fits lq n c (ranked lq counts) (ltb (rank_of lq n) 2) refl (ranked-Fits lq counts)

insert_ranked-Fits :
    (lq : Text) (a : Ranked) (bs : List Ranked)
    → Fits lq a
    → All (Fits lq) bs
    → All (Fits lq) (insert_ranked a bs)
unfolding insert_ranked
insert_ranked-Fits lq a [] h hs = (h, tt)
insert_ranked-Fits lq a (b ∷ bs) h hs =
    if_elim (All (Fits lq)) (before b a) (hs.0, insert_ranked-Fits lq a bs h hs.1) (h, hs)

sort_ranked-Fits :
    (lq : Text) (bs : List Ranked) → All (Fits lq) bs → All (Fits lq) (sort_ranked bs)
unfolding sort_ranked
sort_ranked-Fits lq [] h = tt
sort_ranked-Fits lq (b ∷ bs) h =
    insert_ranked-Fits lq b (sort_ranked bs) h.0 (sort_ranked-Fits lq bs h.1)

take-Fits :
    (lq : Text) (n : ℕ) (bs : List Ranked)
    → All (Fits lq) bs
    → All (λ e. ltb (rank_of lq e.0) 2 ≡ true) (map named (take n bs))
take-Fits lq zero bs h = tt
take-Fits lq (suc n) [] h = tt
take-Fits lq (suc n) (b ∷ bs) h = (h.0, take-Fits lq n bs h.1)

length-take : (n : ℕ) (bs : List Ranked) → length (map named (take n bs)) ≤ n
length-take zero bs = omega arith
length-take (suc n) [] = omega arith
length-take (suc n) (b ∷ bs) = omega (arith, length-take n bs)

pub rank_top-fits :
    (counts : List (Text × ℕ)) (lq : Text)
    → (length (rank_top counts lq) ≤ 20)
      × All (λ e. ltb (rank_of lq e.0) 2 ≡ true) (rank_top counts lq)
unfolding rank_top
rank_top-fits counts lq =
    let found = sort_ranked (ranked lq counts) in
    (
      length-take 20 found,
      take-Fits lq 20 found (sort_ranked-Fits lq (ranked lq counts) (ranked-Fits lq counts)),
    )

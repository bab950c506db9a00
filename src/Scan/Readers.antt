-- ===== src/Scan/Readers.antt =====
-- The readers of /proc in AppOpt/src/apply_affinity.rs. `utf8` is `from_utf8` of bytes, and a file is what
-- `read_proc_file` gives of it: at most `max` bytes, and at least one.
use app_opt.Base.{ℕ, Bool, ◌||◌, List, [], ◌∷◌, Option, none, some, take, ◌==◌, if◌then◌else◌}
use app_opt.Base.Text.{Text, is_empty, trim, split}
use app_opt.Config.Load.{max_pkg_len, max_thread_len}
use app_opt.Refresh.Settings.{parse_i32}
use app_opt.Scan.{ProcFs}

abbrev read_proc_file : ℕ → Option Text → Option Text
read_proc_file max none = none
read_proc_file max (some bytes) = if is_empty (take max bytes) then none else some (take max bytes)

-- The bytes before the first that ends the text.
unfoldable pub until : (ℕ → Bool) → Text → Text
until p [] = []
until p (b ∷ bs) = let rest = until p bs in if p b then [] else b ∷ rest

unfoldable pub last_name : List Text → Text
last_name [] = []
last_name (p ∷ []) = p
last_name (p ∷ q ∷ ps) = last_name (q ∷ ps)

abbrev unless_blank : Text → Option Text
unless_blank s = if is_empty s then none else some s

abbrev name_of : Option Text → Option Text
name_of none = none
name_of (some cmdline) = unless_blank (trim (last_name (split b'/' cmdline)))

abbrev named : (Text → Option Text) → Option Text → Option Text
named utf8 none = none
named utf8 (some bytes) = name_of (utf8 (until (λ b. b == 0) bytes))

-- `read_cmdline` of the content of a file.
unfoldable pub read_cmdline : (Text → Option Text) → Option Text → Option Text
unfolding until last_name
read_cmdline utf8 file = named utf8 (read_proc_file max_pkg_len file)

abbrev trimmed : Option Text → Option Text
trimmed none = none
trimmed (some s) = some (trim s)

abbrev comm_of : (Text → Option Text) → Option Text → Option Text
comm_of utf8 none = none
comm_of utf8 (some bytes) = trimmed (utf8 (until (λ b. b == 0 || b == b'\n') bytes))

unfoldable pub tid_comm : (Text → Option Text) → Option Text → Option Text
unfolding until
tid_comm utf8 file = comm_of utf8 (read_proc_file max_thread_len file)

unfoldable pub parse_names : List Text → List ℕ
parse_names [] = []
parse_names (n ∷ ns) = elim (parse_i32 n) [
  | none ↦ parse_names ns
  | some tid ↦ tid ∷ parse_names ns
]

-- `task_tids` of the names in a directory.
unfoldable pub task_tids : Option (List Text) → Option (List ℕ)
unfolding parse_names
task_tids none = none
task_tids (some ns) = some (parse_names ns)

unfoldable pub parse_entries : List Text → List (Option ℕ)
parse_entries [] = []
parse_entries (n ∷ ns) = parse_i32 n ∷ parse_entries ns

-- The files of /proc: the names in a directory, and the contents of `cmdline`, `comm` and `task`.
pub record Files : Type 0 where
  pub names : Option (List Text)
  pub cmdline : ℕ → Option Text
  pub comm : ℕ → Option Text
  pub task : ℕ → Option (List Text)

abbrev entries_of : Option (List Text) → Option (List (Option ℕ))
entries_of none = none
entries_of (some ns) = some (parse_entries ns)

-- What the scan reads of /proc.
unfoldable pub proc_fs : (Text → Option Text) → Files → ProcFs
unfolding read_cmdline tid_comm task_tids parse_entries
proc_fs utf8 files = record {
  entries = entries_of files.names;
  read_cmdline = λ pid. read_cmdline utf8 (files.cmdline pid);
  tid_comm = λ tid. tid_comm utf8 (files.comm tid);
  task_tids = λ pid. task_tids (files.task pid);
}

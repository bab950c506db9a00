-- ===== src/Config/Load.antt =====
-- `add_rule` and `load_config` of AppOpt/src/config.rs. The file's time stamp and content, and the
-- system calls under `create_cpuset_dir`, are arguments.
pub mod Rules
pub mod Blocks
pub mod Packages
use app_opt.Base.{
  ℕ, ◌+◌, ◌-◌, ◌%◌, ◌^◌, Bool, true, false, not, ◌&&◌, ◌||◌, List, [], ◌∷◌, ◌++◌, Option, none,
  some, any, leb, ltb, ◌==◌, if◌then◌else◌,
}
use app_opt.Base.Dict.{contains, text_eq}
use app_opt.Base.Text.{
  Text, codes, is_empty, contains_char, starts_with, strip_prefix, byte_len, lines, trim,
}
use app_opt.Config.Line.{
  spec_like, split_rule_line, RuleLine, close_like, OuterLine, rule, bare_open, pending, single,
  junk, parse_outer,
}
use app_opt.Cpu.Dirs.{Sys, base_cpuset, create_cpuset_dir}
use app_opt.Cpu.Ranges.{to_range_string}
use app_opt.Cpu.Set.{CpuSet, count}
use app_opt.Cpu.Spec.{parse_cpu_spec}
use app_opt.Cpu.Topology.{CpuTopology}

abbrev pub max_pkg_len : ℕ
max_pkg_len = 128

abbrev pub max_thread_len : ℕ
max_thread_len = 32

pub record AffinityRule : Type 0 where
  pub pkg : Text
  pub thread : Text
  pub thread_pattern : Text
  pub cpuset_dir : Text
  pub cpus : CpuSet

pub record AppConfig : Type 0 where
  pub rules : List AffinityRule
  pub pkgs : List Text
  pub has_thread_rules : List Text
  pub topo : CpuTopology

-- What the loader reads of its surroundings.
pub record Env : Type 0 where
  pub sys : Sys
  pub base : Option Text
  pub topo : CpuTopology

abbrev pub is_control : ℕ → Bool
is_control c = ltb c 0x20 || c == 0x7f

-- `CString::new(s).unwrap_or_default()`
abbrev pub c_string : Text → Text
c_string s = if contains_char 0 s then [] else s

unfoldable pub rule_dir : Env → Text → CpuSet → Text
rule_dir env thread cpus =
    if not (is_empty thread)
    then []
    else if not env.topo.cpuset_enabled
    then []
    else (let dir_name = to_range_string cpus in
        if create_cpuset_dir env.sys (base_cpuset env.base ++ (b'/' ∷ dir_name)) dir_name
          env.topo.mems_str
        then dir_name
        else [])

-- The rule that `add_rule` pushes, or `none` where it returns `false`.
unfoldable pub make_rule : Env → Text → Text → Text → Option AffinityRule
unfolding rule_dir
make_rule env pkg thread cpus_spec =
    if is_empty pkg || leb max_pkg_len (byte_len pkg) || leb max_thread_len (byte_len thread)
    then none
    else if any is_control (pkg ++ thread)
    then none
    else if not (spec_like cpus_spec)
    then none
    else if count (parse_cpu_spec cpus_spec env.topo) == 0
    then none
    else some (record {
      pkg = pkg;
      thread = thread;
      thread_pattern = c_string thread;
      cpuset_dir = rule_dir env thread (parse_cpu_spec cpus_spec env.topo);
      cpus = parse_cpu_spec cpus_spec env.topo;
    })

-- The local variables of `load_config`.
pub record Loader : Type 0 where
  pub rules : List AffinityRule
  pub fail_cnt : ℕ
  pub cur_pkg : Text
  pub pending_pkg : Text
  pub in_block : Bool

abbrev pub initial : Loader
initial = record { rules = []; fail_cnt = 0; cur_pkg = []; pending_pkg = []; in_block = false }

abbrev pub fail : Loader → Loader
fail l = record l { fail_cnt = l.fail_cnt + 1 }

abbrev pub push_rule : Option AffinityRule → Loader → Loader
push_rule none l = fail l
push_rule (some r) l = record l { rules = l.rules ++ (r ∷ []) }

-- `if !add_rule(…) { fail_cnt += 1; }`
unfoldable pub add_rule : Env → Text → Text → Text → Loader → Loader
add_rule env pkg thread cpus l = push_rule (make_rule env pkg thread cpus) l

abbrev pub leave_block : Loader → Loader
leave_block l = record l { in_block = false; cur_pkg = [] }

abbrev pub enter_block : Text → Loader → Loader
enter_block pkg l = record l { cur_pkg = pkg; in_block = true }

-- An owner that waits for its block and does not get it counts as a failure.
abbrev pub drop_pending : Loader → Loader
drop_pending l = if is_empty l.pending_pkg then l else fail l

unfoldable pub block_line : Env → Text → Loader → Loader
unfolding add_rule
block_line env p l = if close_like p then leave_block l else elim (split_rule_line p) [
  | some r ↦
      let added = add_rule env l.cur_pkg r.name r.cpus l in
      if r.closed then leave_block added else added
  | none ↦ if contains_char b'}' p then leave_block (fail l) else fail l
]

abbrev pub clear_pending : Loader → Loader
clear_pending l = record l { pending_pkg = [] }

-- `BareOpen`: the owner is the name on the line, or the one that waits.
abbrev pub open_block : Text → Loader → Loader
open_block owner l = if is_empty owner then fail l else clear_pending (enter_block owner l)

unfoldable pub outer_line : Env → OuterLine → Loader → Loader
unfolding add_rule
outer_line env (single pkg thread cpus open_brace) l =
    let added = add_rule env pkg thread cpus (clear_pending (drop_pending l)) in
    if open_brace then enter_block pkg added else added
outer_line env (rule pkg cpus open_brace) l =
    let added = add_rule env pkg [] cpus (drop_pending l) in
    clear_pending (if open_brace then enter_block pkg added else added)
outer_line env (bare_open pkg) l =
    if is_empty pkg then open_block l.pending_pkg l else open_block pkg (drop_pending l)
outer_line env (pending pkg) l = record (drop_pending l) { pending_pkg = pkg }
outer_line env junk l = clear_pending (fail l)

abbrev pub is_skipped : Text → Bool
is_skipped p = is_empty p || starts_with (codes "#") p || starts_with (codes "//") p

-- One trimmed line.
unfoldable pub load_line : Env → Text → Loader → Loader
unfolding block_line outer_line
load_line env p l =
    if is_skipped p
    then l
    else if l.in_block
    then block_line env p l
    else outer_line env (parse_outer p) l

unfoldable pub load_lines : Env → List Text → Loader → Loader
unfolding load_line
load_lines env [] l = l
load_lines env (line ∷ ls) l = load_lines env ls (load_line env (trim line) l)

-- The check behind the loop.
abbrev pub finish : Loader → Loader
finish l = if l.in_block || not (is_empty l.pending_pkg) then fail l else l

-- A set holds each text once.
unfoldable pub to_set : List Text → List Text
to_set [] = []
to_set (t ∷ ts) = if contains t (to_set ts) then to_set ts else t ∷ to_set ts

unfoldable pub rule_pkgs : List AffinityRule → List Text
rule_pkgs [] = []
rule_pkgs (r ∷ rs) = r.pkg ∷ rule_pkgs rs

unfoldable pub thread_pkgs : List AffinityRule → List Text
thread_pkgs [] = []
thread_pkgs (r ∷ rs) = if is_empty r.thread then thread_pkgs rs else r.pkg ∷ thread_pkgs rs

unfoldable pub config_of : CpuTopology → List AffinityRule → AppConfig
unfolding to_set rule_pkgs thread_pkgs
config_of topo rules = record {
  rules = rules;
  pkgs = to_set (rule_pkgs rules);
  has_thread_rules = to_set (thread_pkgs rules);
  topo = topo;
}

-- The file as the loader finds it. A time stamp is the bit pattern of an `i64`.
pub record ConfigFile : Type 0 where
  pub mtime : Option ℕ
  pub content : Option Text

abbrev pub no_mtime : ℕ
no_mtime = 2 ^ 64 - 1

-- The configuration, if there is a new one, and the new values of `last_mtime` and `PARSE_FAILS`.
pub record Loaded : Type 0 where
  pub config : Option AppConfig
  pub last_mtime : ℕ
  pub parse_fails : ℕ

unfoldable pub load_content : Env → ℕ → Text → Loaded
unfolding load_lines config_of
load_content env mtime content =
    let l = finish (load_lines env (lines content) initial) in
    record {
      config = some (config_of env.topo l.rules);
      last_mtime = mtime;
      parse_fails = l.fail_cnt;
    }

unfoldable pub load_config : Env → ConfigFile → ℕ → ℕ → Loaded
load_config env file last_mtime parse_fails =
    let unchanged : Loaded = record {
      config = none;
      last_mtime = last_mtime;
      parse_fails = parse_fails;
    } in
    elim file.mtime [
      | none ↦ unchanged
      | some mtime ↦
          if last_mtime == mtime && not (last_mtime == no_mtime)
          then unchanged
          else elim file.content [ none ↦ unchanged | some c ↦ load_content env mtime c ]
    ]

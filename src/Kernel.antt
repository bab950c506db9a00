-- ===== src/Kernel.antt =====
-- AppOpt-ebpf/src/main.rs: the programs that run in the kernel. An array is the list of its bytes,
-- an i32 its bit pattern. The helpers of the kernel, and the insertion into the LRU map, which may
-- evict other keys, are arguments.
pub mod Filter
pub mod Tracking
use app_opt.Base.{
  ℕ, zero, suc, ◌+◌, ◌-◌, ◌/◌, ◌%◌, ◌^◌, Bool, true, false, not, ◌&&◌, List, [], ◌∷◌, ◌++◌, Option,
  none, some, ltb, ◌==◌, if◌then◌else◌, take, drop, replicate,
}
use app_opt.Base.Dict.{lookup, remove, ℕ_eq, text_eq}
use app_opt.Base.Text.{Text, is_some}

pub record TracepointOffsets : Type 0 where
  pub fork_child_pid : ℕ
  pub fork_child_comm : ℕ
  pub rename_newcomm : ℕ

-- The values of `event_type`.
pub data EventType : Type 0 where
  fork exec rename exit input : EventType

pub record ProcEvent : Type 0 where
  pub pid : ℕ
  pub tid : ℕ
  pub comm : List ℕ
  pub event_type : EventType

abbrev pub Applied : Type 0
Applied = List (ℕ × ℕ)

-- The maps: the offsets are the one entry of their array.
pub record Maps : Type 0 where
  pub target_comm_map : List (List ℕ × ℕ)
  pub applied_map : Applied
  pub offsets_map : Option TracepointOffsets
  pub last_input_ns : Option ℕ
  pub events : List ProcEvent

-- What the helpers answer while one program runs. `reserve` says whether the ring buffer has room.
pub record Helpers : Type 0 where
  pub pid_tgid : ℕ
  pub current_comm : Option (List ℕ)
  pub ktime_ns : ℕ
  pub read_i32 : ℕ → Option ℕ
  pub read_comm : ℕ → Option (List ℕ)
  pub reserve : Bool
  pub lru_insert : ℕ → ℕ → Applied → Applied

abbrev pub injected : Option TracepointOffsets → Option TracepointOffsets
injected none = none
injected (some o) = if o.fork_child_pid == 0 then none else some o

abbrev pub offsets_load : Maps → Option TracepointOffsets
offsets_load m = injected m.offsets_map

pub record EventMeta : Type 0 where
  pub pid : ℕ
  pub tid : ℕ
  pub comm : List ℕ
  pub parent_tid : ℕ
  pub parent_tgid : ℕ

abbrev pub applied_lookup : ℕ → Maps → Bool
applied_lookup key m = is_some (lookup key m.applied_map)

-- The window of eight bytes at `pos`.
abbrev pub key_at : ℕ → List ℕ → List ℕ
key_at pos comm = take 8 (drop pos comm)

-- `for pos in 0..=8`, with `n` rounds left.
unfoldable pub windows_loop : ℕ → ℕ → List ℕ → Maps → Bool
windows_loop zero pos comm m = false
windows_loop (suc n) pos comm m =
    let rest = windows_loop n (pos + 1) comm m in
    if is_some (lookup (key_at pos comm) m.target_comm_map) then true else rest

unfoldable pub whitelist_matched : List ℕ → Maps → Bool
unfolding windows_loop
whitelist_matched comm m = windows_loop 9 0 comm m

unfoldable pub submit_event : Helpers → ProcEvent → Maps → Maps
submit_event k event m = if k.reserve then record m { events = m.events ++ (event ∷ []) } else m

abbrev pub low_word : ℕ → ℕ
low_word pid_tgid = pid_tgid % 2 ^ 32

abbrev pub high_word : ℕ → ℕ
high_word pid_tgid = pid_tgid / 2 ^ 32 % 2 ^ 32

abbrev pub or_zero : Option ℕ → ℕ
or_zero none = 0
or_zero (some n) = n

abbrev pub or_zeros : Option (List ℕ) → List ℕ
or_zeros none = replicate 16 0
or_zeros (some comm) = comm

unfoldable pub fork_parse : Helpers → TracepointOffsets → EventMeta
fork_parse k offsets = record {
  pid = high_word k.pid_tgid;
  tid = or_zero (k.read_i32 offsets.fork_child_pid);
  comm = or_zeros (k.read_comm offsets.fork_child_comm);
  parent_tid = low_word k.pid_tgid;
  parent_tgid = high_word k.pid_tgid;
}

unfoldable pub exec_parse : Helpers → EventMeta
exec_parse k = record {
  pid = high_word k.pid_tgid;
  tid = low_word k.pid_tgid;
  comm = or_zeros k.current_comm;
  parent_tid = 0;
  parent_tgid = 0;
}

abbrev pub is_fork : EventType → Bool
is_fork fork = true
is_fork _ = false

abbrev pub event_of : EventMeta → EventType → ProcEvent
event_of meta t = record { pid = meta.pid; tid = meta.tid; comm = meta.comm; event_type = t }

-- The placeholder for a child of a thread that is managed.
abbrev pub place : Helpers → ℕ → Maps → Maps
place k tid m = record m { applied_map = k.lru_insert tid 0 m.applied_map }

-- `report_named_event` once the fields are read.
unfoldable pub report_meta : Helpers → EventType → EventMeta → Maps → Maps
report_meta k t meta m =
    let is_tracked = applied_lookup (if is_fork t then meta.parent_tid else meta.tid) m in
    if not is_tracked && not (whitelist_matched meta.comm m)
    then m
    else (submit_event k (event_of meta t)
        (if is_fork t && is_tracked then place k meta.tid m else m))

abbrev pub report_fork : Helpers → Option TracepointOffsets → Maps → Maps
report_fork k none m = m
report_fork k (some offsets) m = report_meta k fork (fork_parse k offsets) m

unfoldable pub report_named_event : Helpers → EventType → Maps → Maps
report_named_event k t m =
    if is_fork t then report_fork k (offsets_load m) m else report_meta k t (exec_parse k) m

abbrev pub sched_process_fork : Helpers → Maps → Maps
sched_process_fork k m = report_named_event k fork m

abbrev pub sched_process_exec : Helpers → Maps → Maps
sched_process_exec k m = report_named_event k exec m

-- `task_rename` once the new name is read.
unfoldable pub rename_to : Helpers → List ℕ → Maps → Maps
rename_to k new_comm m =
    if not (applied_lookup (low_word k.pid_tgid) m) && not (whitelist_matched new_comm m)
    then m
    else submit_event k
        (record {
          pid = high_word k.pid_tgid;
          tid = low_word k.pid_tgid;
          comm = new_comm;
          event_type = rename;
        })
        m

abbrev pub rename_at : Helpers → Option TracepointOffsets → Maps → Maps
rename_at k none m = m
rename_at k (some offsets) m = rename_to k (or_zeros (k.read_comm offsets.rename_newcomm)) m

unfoldable pub task_rename : Helpers → Maps → Maps
task_rename k m = if low_word k.pid_tgid == 0 then m else rename_at k (offsets_load m) m

unfoldable pub sched_process_exit : Helpers → Maps → Maps
sched_process_exit k m =
    if not (applied_lookup (low_word k.pid_tgid) m)
    then m
    else submit_event k
        (record {
          pid = high_word k.pid_tgid;
          tid = low_word k.pid_tgid;
          comm = replicate 16 0;
          event_type = exit;
        })
        (record m { applied_map = remove (low_word k.pid_tgid) m.applied_map })

-- `now - *last` on u64.
abbrev pub throttled : ℕ → Option ℕ → Bool
throttled now none = false
throttled now (some last) = ltb ((now + 2 ^ 64 - last) % 2 ^ 64) 1_000_000_000

-- Setting an array's entry works where the array has it.
abbrev pub set_last : ℕ → Option ℕ → Option ℕ
set_last now none = none
set_last now (some _) = some now

unfoldable pub kprobe_input_event : Helpers → Maps → Maps
kprobe_input_event k m =
    if throttled k.ktime_ns m.last_input_ns
    then m
    else submit_event k
        (record {
          pid = high_word k.pid_tgid;
          tid = low_word k.pid_tgid;
          comm = or_zeros k.current_comm;
          event_type = input;
        })
        (record m { last_input_ns = set_last k.ktime_ns m.last_input_ns })

-- ===== src/Lib.antt =====
-- AppOpt is a daemon for Android that binds the threads of chosen applications to CPUs, by rules
-- in a text file, and that switches the refresh rate of the display with the user's activity. The
-- models below are of the crate AppOpt (AppOpt/src) and of its kernel part (AppOpt-ebpf/src).
--
-- The parts, and the files that model them:
--
-- - Base: lists, options, bits, decimal text and association lists that the parts share. A text
--   is the list of its code points; a map is an association list.
-- - Cpu: AppOpt/src/cpuset.rs. Cpu/Set has CpuSet as sixteen 64-bit words, Cpu/Ranges the text
--   form (to_range_string, parse_cpu_ranges), Cpu/Topology the core tiers (detect_core_types),
--   Cpu/Spec the specifications (parse_cpu_spec), Cpu/Dirs the cpuset directories
--   (create_cpuset_dir, ensure_cpuset_dir), Cpu/Start the topology at the start (init_cpu_topo).
-- - Config: AppOpt/src/config.rs. Config/Line has the line grammar (parse_outer,
--   split_rule_line), Config/Load the loader (add_rule, load_config) with its local variables as
--   the record Loader.
-- - Config/Watch: the thread config_loader of AppOpt/src/config.rs, with inotify_handle and
--   config_reload.
-- - Match: AppOpt/src/rule_match.rs (thread_affinity, comm_to_pkg), over the rules that
--   Config/Load makes.
-- - Cache: AppOpt/src/cache.rs and affinity_set of AppOpt/src/apply_affinity.rs: the table of
--   threads, which both the eBPF mode and the proc mode keep, filled by Match.
-- - Kernel: AppOpt-ebpf/src/main.rs, the programs that run in the kernel, over their maps.
--   Kernel/Filter and Kernel/Tracking have what they let pass.
-- - Ebpf: AppOpt/src/ebpf_mode.rs. Ebpf itself has the keys that user space puts into the filter
--   of Kernel (comm_keys_build, comm_map_init), Ebpf/Comm the name in an event (comm_str),
--   Ebpf/Events the dispatch of what the kernel reports, into the table of Cache.
-- - Scan: AppOpt/src/proc_mode.rs and proc_walk of AppOpt/src/apply_affinity.rs: the scan of
--   /proc that fills the table of Cache. Scan/Readers has read_cmdline, tid_comm and task_tids
--   over the contents of files.
-- - Refresh: AppOpt/src/refresh.rs. The state machine (reset_timer, switch_to_idle,
--   handle_fg_change, handle_input), Refresh/Settings its configuration file, Refresh/Edit the
--   functions that change the file for the web interface, Refresh/Reads refresh_get_config with
--   what it and the loader read of a file so changed, Refresh/Invariant the dispatch of the
--   events in refresh_init.
-- - Edit: AppOpt/src/rule_edit.rs, over the lines of the file. Edit/Scan has target_scan,
--   Edit/Singles normalize_singles, Edit/Ops the operations (rule_upsert, rule_delete,
--   rule_delete_pkg, rule_rename); Edit/Bounds, Edit/Idxs and Edit/Delete are about line numbers
--   and the loop of a deletion, Edit/Mentions to Edit/Upsert about what Config/Load reads of an
--   edited file.
-- - Web: AppOpt/src/web.rs. Web itself has the tests on names and paths, Web/Settings the
--   settings file (settings_load, Settings::from_json), Web/Service the settings that the threads
--   share (config_set_api), Web/Rules the handlers that call Edit (rule_api and the like),
--   Web/Rules/Suggest the suggestions (rank_top), Web/Rates the handlers that call Refresh/Edit,
--   Web/Http request_read and dispatch. serde_json is the record Serde, with what it promises in
--   IsSerde.
-- - Daemon: AppOpt/src/main.rs. Daemon/Args has the options, Daemon/Round the rounds of the loop
--   over the operations of the two modes (the record Parts), Daemon/Round/Modes and
--   Daemon/Round/Ready what rounds keep, and Daemon/Parts these operations from the models of
--   Ebpf, Scan and Cache.
-- - Tests: small runs, and the theorems at concrete inputs.
--
-- Numbers: a 64-bit word and an i32 are natural numbers below their power of two, with the
-- wrap-around written out. A time is a number of nanoseconds. Loops are recursions on the list
-- they walk, or on the number of rounds left, which is the length of the range in the source (64
-- bits of a word, the CPUs from lo to hi), so that no fuel runs out. The loop of rule_delete_pkg
-- has one round per line and one more as fuel, which is enough since each round takes a line
-- away; rule_rename is given fuel without such a bound.
--
-- The kernel and libc are arguments: fnmatch, the answers to mkdir, chmod, chown and writes, the
-- affinity calls, the contents of files. The order in which a HashMap or HashSet is walked is the
-- order of the list, which is arbitrary.
--
-- Not modelled: the sockets and threads, the figures that the web interface shows (status_json,
-- config_json), the process observer, the start of threads, the text of log messages, and the
-- sources at the root of the repository, which are other versions of these files.
pub mod Base
pub mod Cache
pub mod Config
pub mod Cpu
pub mod Daemon
pub mod Ebpf
pub mod Edit
pub mod Kernel
pub mod Match
pub mod Refresh
pub mod Scan
pub mod Tests
pub mod Web

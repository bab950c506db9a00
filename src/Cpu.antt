-- ===== src/Cpu.antt =====
-- AppOpt/src/cpuset.rs: the CPU bit set, its text forms and the core tiers.
pub mod Set
pub mod Ranges
pub mod Topology
pub mod Spec
pub mod Dirs
pub mod Start

-- ===== src/Daemon.antt =====
-- AppOpt/src/main.rs: the start of the daemon, and the rounds of its loop.
pub mod Args
pub mod Round
pub mod Parts

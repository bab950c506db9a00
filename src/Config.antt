-- ===== src/Config.antt =====
-- AppOpt/src/config.rs: the grammar of the rule file, and its loading.
pub mod Line
pub mod Load
pub mod Watch

-- ===== src/Config.antt =====
-- internal/conf/conf.go: the configuration as it is loaded and checked.
pub mod Servers
pub mod Load
pub mod Checked
pub mod Examples

-- ===== src/Config.antt =====
-- src/config.rs: address ranges, and the configuration as the environment gives it.
pub mod Cidr
pub mod Load

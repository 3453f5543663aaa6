-- ===== src/Settings.antt =====
-- The configuration that a boot is given, sirati-nmbl/nmbl-init-rs/src/config/mod.rs.
pub mod Validate
pub mod Checks
pub mod Mountable
mod Tests

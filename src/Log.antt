-- ===== src/Log.antt =====
-- What the log keeps in memory, sirati-nmbl/nmbl-init-rs/src/log.
pub mod Ring
pub mod ByteRing
pub mod Suffix
pub mod Lines
mod Tests

-- ===== src/Refuse.antt =====
-- Refusing a boot, sirati-nmbl/nmbl-init-rs/src/policy: the priority gate, the sentinel, the relock.
pub mod Gate
pub mod ReadOnly
pub mod Enforced
pub mod Argv
pub mod Mangle
pub mod Commands
pub mod Relock
pub mod Refused
mod Tests

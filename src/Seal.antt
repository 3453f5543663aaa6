-- ===== src/Seal.antt =====
-- Sealing the TPM's secrets before any interactive context, sirati-nmbl/nmbl-init-rs/src/policy.
pub mod Registry
pub mod Guard
pub mod Drained
pub mod Sealing
pub mod Survival
mod Tests

-- ===== src/Sig.antt =====
-- Detached signatures, sirati-nmbl/nmbl-init-rs/src/sig.
pub mod Alg
pub mod Wire
pub mod Sidecar
pub mod RoundTrip
pub mod Strictness
pub mod Verify
pub mod Trust
pub mod Acceptance
mod Tests

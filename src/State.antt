-- ===== src/State.antt =====
-- The persistent boot state, sirati-nmbl/nmbl-init-rs/src/state.
pub mod Types
pub mod Error
pub mod Decide
pub mod Mark
pub mod Io
pub mod Persist
pub mod Durability
pub mod Installed
pub mod RescueRetry
pub mod Lifecycle
pub mod Decided
pub mod Marked
pub mod Events
pub mod Dispatch
pub mod Selection
pub mod Boots
mod Codec
mod Tests
pub mod Ring
pub mod Rotation
pub mod Fallback
pub mod Picked
pub mod Proven
pub mod Rollback
pub mod GivingUp

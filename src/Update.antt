-- ===== src/Update.antt =====
-- The tool that installs a boot set into one of two slots, sirati-nmbl/nmbl-init-rs/nmbl-boot-update.
pub mod Manifest
pub mod Bundle
pub mod Names
pub mod EntryShape
pub mod Shape
pub mod Disk
pub mod Staging
pub mod Slots
pub mod Install
pub mod Verified
pub mod Steps
pub mod Untouched
pub mod Entries
pub mod Staged
pub mod Source
pub mod Safety
pub mod Atomic
pub mod Current
pub mod Survival
pub mod Ending
mod Tests

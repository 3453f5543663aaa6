-- ===== src/Update/Install.antt =====
-- nmbl-boot-update/src/transaction.rs: the installation of a boot set into the slot that is not
-- active. The bundle's directory does not change meanwhile.
use siratis_nmbl_bootloader.Prelude.{
  ℕ, Bool, true, false, Option, none, some, [], if◌then◌else◌, is_some, Bytes, bytes_eq, Outcome,
  ok, err, codes,
}
use siratis_nmbl_bootloader.Update.Manifest.{
  Error, invalid, Libraries, Slot, slot_a, slot_b, manifest_slot, wrong_slot,
}
use siratis_nmbl_bootloader.Update.Bundle.{
  lookup, Node, folder, not_folder, ValidatedBundle, bundle,
}
use siratis_nmbl_bootloader.Update.Disk.{
  World, M, ◌>>=◌, ◌>>◌, lift, pure, look, atomic, inspect, other_slot, put_slot, put_stage,
}
use siratis_nmbl_bootloader.Update.Staging.{stage_or_clean}
use siratis_nmbl_bootloader.Update.Slots.{
  Limits, read_active, remove_confined, installed, staging, preflight, write_selector,
}

-- `Outcome`
pub data Installed : Type 0 where
  activated unchanged : Slot → Installed

abbrev pub same_manifest :
    Bytes → Outcome Error ValidatedBundle × World → Outcome Error Bool × World
same_manifest bytes (ok found, w) = (ok (bytes_eq found.manifest_bytes bytes), w)
same_manifest bytes (err why, w) = (ok false, w)

abbrev pub has_manifest : Option Node → Bool
has_manifest none = false
has_manifest (some not_folder) = false
has_manifest (some (folder files)) = is_some (lookup (codes "manifest.json") files)

abbrev pub inactive : Option Slot → Slot
inactive none = slot_a
inactive (some s) = other_slot s

abbrev pub active_or_a : Option Slot → Slot
active_or_a none = slot_a
active_or_a (some s) = s

abbrev pub slot_matches : Slot → Slot → Bool
slot_matches slot_a slot_a = true
slot_matches slot_b slot_b = true
slot_matches _ _ = false

abbrev pub unless_current : Bool → Slot → M Installed → M Installed
unless_current current s replacing = if current then (λ w. (ok (unchanged s), w)) else replacing

module _ (lib : Libraries) (public_key : Option Bytes) where
  -- `validate::bundle`, of which any read may fail.
  unfoldable pub read_validated : Option Node → M ValidatedBundle
  read_validated node = inspect >> lift (bundle lib node public_key)

  abbrev pub is_current : Bytes → Option Node → M Bool
  is_current bytes node w =
      let read = same_manifest bytes (read_validated node w) in
      if has_manifest node then read else (ok false, w)

  abbrev pub is_installed : Bytes → Option Slot → M Bool
  is_installed bytes none = pure false
  is_installed bytes (some s) = look >>= λ root. is_current bytes (root.slot s)

  -- From the staging directory on.
  unfoldable pub publish : Slot → ValidatedBundle → Option ℕ → M (Unit {0})
  publish s b fail_after = do
    remove_confined (staging s)
    atomic (put_stage s (some (folder [])))
    stage_or_clean s b fail_after
    inspect
    root ← look
    found ← read_validated (root.stage s)
    remove_confined (installed s)
    atomic (λ root. put_slot s (root.stage s) (put_stage s none root))
    inspect

  unfoldable pub replace : Limits → Slot → ValidatedBundle → M Installed
  replace limits s b = do
    lift (
        if slot_matches (manifest_slot b.manifest) s
        then ok tt
        else err (invalid (wrong_slot b.manifest.target_slot)))
    preflight limits s b.allocated_bytes
    publish s b limits.fail_after_files
    write_selector s
    pure (activated s)

  unfoldable pub install : Option Node → Limits → M Installed
  install source limits = do
    b ← read_validated source
    inspect
    inspect
    active ← read_active
    current ← is_installed b.manifest_bytes active
    unless_current current (active_or_a active) (replace limits (inactive active) b)

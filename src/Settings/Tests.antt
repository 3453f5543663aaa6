-- ===== src/Settings/Tests.antt =====
-- Config::validate at a concrete configuration.
use siratis_nmbl_bootloader.Prelude.{◌≡◌, refl, ◌↔◌, true, [], ◌∷◌, ok, err, codes}
use siratis_nmbl_bootloader.Refuse.Argv.{Activation, strip_prefix, luks_keyfile}
use siratis_nmbl_bootloader.Refuse.Relock.{FilesystemEntry}
use siratis_nmbl_bootloader.Settings.Validate.{
  Plan, for_each, check_device, check_covered, validate_activation_covers_filesystems, validate,
  uncovered_mapper,
}
use siratis_nmbl_bootloader.Settings.Mountable.{IsMountable, validate_iff}

abbrev on_mapper : FilesystemEntry
on_mapper = record { device = codes "/dev/mapper/r"; is_root = true; mountpoint = codes "/" }

abbrev opens_root : Activation
opens_root = record {
  kind = luks_keyfile;
  binary = codes "/bin/cs";
  produces_devices = codes "/dev/mapper/x" ∷ codes "/dev/mapper/r" ∷ [];
}

abbrev unlocked : Plan
unlocked = record { filesystems = on_mapper ∷ []; activations = opens_root ∷ [] }

accepted : validate unlocked ≡ ok tt
unfolding validate for_each check_device check_covered validate_activation_covers_filesystems
    strip_prefix
accepted = refl

-- Nothing brings the mapper up.
rejected : validate (record unlocked { activations = [] }) ≡ err (uncovered_mapper on_mapper)
unfolding validate for_each check_device check_covered validate_activation_covers_filesystems
    strip_prefix
rejected = refl

validate_iff_example : (validate unlocked ≡ ok tt) ↔ IsMountable unlocked
validate_iff_example = validate_iff unlocked

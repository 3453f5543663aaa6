-- ===== src/Settings/Validate.antt =====
-- config/mod.rs: Config::validate and validate_activation_covers_filesystems. Of an error the
-- filesystem it names is kept; its text is left out.
use siratis_nmbl_bootloader.Prelude.{
  Bool, true, false, not, ◌&&◌, ◌||◌, List, [], ◌∷◌, if◌then◌else◌, is_some, any, Bytes, bytes_eq,
  Outcome, ok, err, ◌>>=◌, codes,
}
use siratis_nmbl_bootloader.Refuse.Argv.{
  ActivationKind, Activation, strip_prefix, luks_tpm, luks_keyfile, luks_password, lvm, mdraid,
}
use siratis_nmbl_bootloader.Refuse.Relock.{FilesystemEntry}

abbrev pub starts_with : Bytes → Bytes → Bool
starts_with prefix text = is_some (strip_prefix prefix text)

pub data ConfigInvalid : Type 0 where
  short_form_device uncovered_mapper : FilesystemEntry → ConfigInvalid

pub record Plan : Type 0 where
  pub filesystems : List FilesystemEntry
  pub activations : List Activation

-- A `for` loop over the filesystems that returns the first error.
unfoldable pub for_each :
    (FilesystemEntry → Outcome ConfigInvalid (Unit {0}))
    → List FilesystemEntry
    → Outcome ConfigInvalid (Unit {0})
for_each check [] = ok tt
for_each check (fs ∷ filesystems) = check fs >>= λ _. for_each check filesystems

unfoldable pub check_device : FilesystemEntry → Outcome ConfigInvalid (Unit {0})
check_device fs =
    if starts_with (codes "LABEL=") fs.device
      || starts_with (codes "UUID=") fs.device
      || starts_with (codes "PARTUUID=") fs.device
    then err (short_form_device fs)
    else ok tt

abbrev pub is_lvm : ActivationKind → Bool
is_lvm lvm = true
is_lvm kind = false

abbrev pub is_mdraid : ActivationKind → Bool
is_mdraid mdraid = true
is_mdraid kind = false

abbrev pub is_luks : ActivationKind → Bool
is_luks luks_tpm = true
is_luks luks_keyfile = true
is_luks luks_password = true
is_luks kind = false

abbrev pub produces : Bytes → Activation → Bool
produces device act = is_luks act.kind && any (λ p. bytes_eq p device) act.produces_devices

unfoldable pub check_covered : List Activation → FilesystemEntry → Outcome ConfigInvalid (Unit {0})
check_covered activations fs =
    if not (starts_with (codes "/dev/mapper/") fs.device)
    then ok tt
    else if any (λ a. produces fs.device a) activations
    then ok tt
    else err (uncovered_mapper fs)

unfoldable pub validate_activation_covers_filesystems : Plan → Outcome ConfigInvalid (Unit {0})
validate_activation_covers_filesystems plan =
    if any (λ a. is_lvm a.kind) plan.activations || any (λ a. is_mdraid a.kind) plan.activations
    then ok tt
    else for_each (check_covered plan.activations) plan.filesystems

unfoldable pub validate : Plan → Outcome ConfigInvalid (Unit {0})
validate plan =
    for_each check_device plan.filesystems >>= λ _. validate_activation_covers_filesystems plan

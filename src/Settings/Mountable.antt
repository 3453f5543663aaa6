-- ===== src/Settings/Mountable.antt =====
-- What it means that Config::validate accepts a configuration.
use siratis_nmbl_bootloader.Prelude.{
  any_iff, ◌≡◌, refl, ap, subst, ◌↔◌, ◌⊎◌, inl, inr, Bool, true, false, ◌&&◌, ◌||◌, List,
  if◌then◌else◌, any, Bytes, bytes_eq, bytes_eq_refl, bytes_eq→eq, Outcome, ok, err, ◌>>=◌, Mem,
  codes,
}
use siratis_nmbl_bootloader.Refuse.Argv.{
  ActivationKind, Activation, luks_tpm, luks_keyfile, luks_password, lvm, mdraid, zfs,
}
use siratis_nmbl_bootloader.Refuse.Relock.{FilesystemEntry}
use siratis_nmbl_bootloader.Settings.Validate.{
  ConfigInvalid, Plan, for_each, check_device, is_lvm, is_mdraid, is_luks, produces, check_covered,
  validate_activation_covers_filesystems, validate,
}
use siratis_nmbl_bootloader.Settings.Checks.{
  StartsWith, starts_with_iff, for_each_iff, passed, starts_with-not, check_device-ok,
  check_covered-ok,
}

abbrev IsLuks : ActivationKind → Type 0
IsLuks kind = (kind ≡ luks_tpm) ⊎ (kind ≡ luks_keyfile) ⊎ (kind ≡ luks_password)

-- What an activation of the plan can bring up.
abbrev IsCovered : Plan → Bytes → Type 0
IsCovered plan device =
    (act : Activation) × Mem act plan.activations
    × ((act.kind ≡ lvm) ⊎ (act.kind ≡ mdraid) ⊎ (IsLuks act.kind × Mem device act.produces_devices))

-- No device is given in a short form, and each mapper can be brought up.
pub record IsMountable (plan : Plan) : Type 0 where
  pub no_short_form :
      (fs : FilesystemEntry)
      → Mem fs plan.filesystems
      → ¬ StartsWith (codes "LABEL=") fs.device
        × ¬ StartsWith (codes "UUID=") fs.device
        × ¬ StartsWith (codes "PARTUUID=") fs.device
  pub mappers_covered :
      (fs : FilesystemEntry)
      → Mem fs plan.filesystems
      → StartsWith (codes "/dev/mapper/") fs.device
      → IsCovered plan fs.device

is_lvm-lvm : (kind : ActivationKind) → is_lvm kind ≡ true → kind ≡ lvm
is_lvm-lvm lvm h = refl
is_lvm-lvm mdraid h = absurd (cc)
is_lvm-lvm luks_tpm h = absurd (cc)
is_lvm-lvm luks_keyfile h = absurd (cc)
is_lvm-lvm luks_password h = absurd (cc)
is_lvm-lvm zfs h = absurd (cc)

is_mdraid-mdraid : (kind : ActivationKind) → is_mdraid kind ≡ true → kind ≡ mdraid
is_mdraid-mdraid mdraid h = refl
is_mdraid-mdraid lvm h = absurd (cc)
is_mdraid-mdraid luks_tpm h = absurd (cc)
is_mdraid-mdraid luks_keyfile h = absurd (cc)
is_mdraid-mdraid luks_password h = absurd (cc)
is_mdraid-mdraid zfs h = absurd (cc)

is_luks-IsLuks : (kind : ActivationKind) → is_luks kind ≡ true → IsLuks kind
is_luks-IsLuks luks_tpm h = inl refl
is_luks-IsLuks luks_keyfile h = inr (inl refl)
is_luks-IsLuks luks_password h = inr (inr refl)
is_luks-IsLuks lvm h = absurd (cc)
is_luks-IsLuks mdraid h = absurd (cc)
is_luks-IsLuks zfs h = absurd (cc)

IsLuks-is_luks : (kind : ActivationKind) → IsLuks kind → is_luks kind ≡ true
IsLuks-is_luks kind (inl e) = ap is_luks e
IsLuks-is_luks kind (inr (inl e)) = ap is_luks e
IsLuks-is_luks kind (inr (inr e)) = ap is_luks e

produces_iff :
    (device : Bytes) (act : Activation)
    → (produces device act ≡ true) ↔ (IsLuks act.kind × Mem device act.produces_devices)
produces_iff device act = (there (is_luks act.kind) refl, back)
  where
    listed : List Bytes → Bool
    listed = any (λ p. bytes_eq p device)

    there :
        (b : Bool)
        → is_luks act.kind ≡ b
        → (b && listed act.produces_devices) ≡ true
        → IsLuks act.kind × Mem device act.produces_devices
    there false e h = absurd (cc)
    there true e h =
        let (p, m, q) = (any_iff (λ p. bytes_eq p device) act.produces_devices).0 h in
        (
          is_luks-IsLuks act.kind e,
          subst (λ d. Mem d act.produces_devices) (bytes_eq→eq p device q) m,
        )

    back :
        IsLuks act.kind × Mem device act.produces_devices
        → (is_luks act.kind && listed act.produces_devices) ≡ true
    back (e, m) =
        rw
          (
            IsLuks-is_luks act.kind e,
            (any_iff (λ p. bytes_eq p device) act.produces_devices).1
                (device, m, bytes_eq_refl device),
          )
          refl

module _ (plan : Plan) where
  has_lvm : Bool
  has_lvm = any (λ a. is_lvm a.kind) plan.activations

  has_mdraid : Bool
  has_mdraid = any (λ a. is_mdraid a.kind) plan.activations

  any-IsCovered :
      (device : Bytes)
      → (has_lvm ≡ true)
        ⊎ (has_mdraid ≡ true)
        ⊎ (any (λ a. produces device a) plan.activations ≡ true)
      → IsCovered plan device
  unfolding has_lvm has_mdraid
  any-IsCovered device (inl h) =
      let (a, m, q) = (any_iff (λ a. is_lvm a.kind) plan.activations).0 h in
      (a, m, inl (is_lvm-lvm a.kind q))
  any-IsCovered device (inr (inl h)) =
      let (a, m, q) = (any_iff (λ a. is_mdraid a.kind) plan.activations).0 h in
      (a, m, inr (inl (is_mdraid-mdraid a.kind q)))
  any-IsCovered device (inr (inr h)) =
      let (a, m, q) = (any_iff (λ a. produces device a) plan.activations).0 h in
      (a, m, inr (inr ((produces_iff device a).0 q)))

  IsCovered-any :
      (device : Bytes)
      → IsCovered plan device
      → (has_lvm ≡ true)
        ⊎ (has_mdraid ≡ true)
        ⊎ (any (λ a. produces device a) plan.activations ≡ true)
  unfolding has_lvm has_mdraid
  IsCovered-any device (a, m, inl h) =
      inl ((any_iff (λ a. is_lvm a.kind) plan.activations).1 (a, m, ap is_lvm h))
  IsCovered-any device (a, m, inr (inl h)) =
      inr (inl ((any_iff (λ a. is_mdraid a.kind) plan.activations).1 (a, m, ap is_mdraid h)))
  IsCovered-any device (a, m, inr (inr h)) = inr (
      inr
        ((any_iff (λ a. produces device a) plan.activations).1 (a, m, (produces_iff device a).1 h)))

  AllCovered : Type 0
  AllCovered =
      (fs : FilesystemEntry)
      → Mem fs plan.filesystems
      → StartsWith (codes "/dev/mapper/") fs.device
      → IsCovered plan fs.device

  covers_iff : (validate_activation_covers_filesystems plan ≡ ok tt) ↔ AllCovered
  unfolding validate_activation_covers_filesystems has_lvm has_mdraid AllCovered
  covers_iff = go has_lvm has_mdraid refl refl
    where
      checks : Outcome ConfigInvalid (Unit {0})
      checks = for_each (check_covered plan.activations) plan.filesystems

      go :
          (a b : Bool)
          → has_lvm ≡ a
          → has_mdraid ≡ b
          → ((if a || b then ok tt else checks) ≡ passed) ↔ AllCovered
      go true b e f = (λ h fs m s. any-IsCovered fs.device (inl e), λ h. refl)
      go false true e f = (λ h fs m s. any-IsCovered fs.device (inr (inl f)), λ h. refl)
      go false false e f = (
        λ h fs m s. any-IsCovered fs.device (
            inr (
              inr (
                (check_covered-ok plan.activations fs).0
                  ((for_each_iff (check_covered plan.activations) plan.filesystems).0 h fs m)
                  ((starts_with_iff (codes "/dev/mapper/") fs.device).1 s)))),
        λ h. (for_each_iff (check_covered plan.activations) plan.filesystems).1 (λ fs m.
            (check_covered-ok plan.activations fs).1 (λ s.
              elim (IsCovered-any fs.device
                (h fs m ((starts_with_iff (codes "/dev/mapper/") fs.device).0 s))) [
                  | inl k ↦ absurd (cc)
                  | inr (inl k) ↦ absurd (cc)
                  | inr (inr k) ↦ k
                ])),
      )

  there : validate plan ≡ ok tt → IsMountable plan
  unfolding validate AllCovered
  there h = go (for_each check_device plan.filesystems) refl h
    where
      go :
          (o : Outcome ConfigInvalid (Unit {0}))
          → for_each check_device plan.filesystems ≡ o
          → (o >>= λ _. validate_activation_covers_filesystems plan) ≡ passed
          → IsMountable plan
      go (err why) e k = absurd (cc)
      go (ok u) e k = record {
        no_short_form = λ fs m.
            let (a, b, c) =
              (check_device-ok fs).0 ((for_each_iff check_device plan.filesystems).0 e fs m) in
            (
              (starts_with-not (codes "LABEL=") fs.device).0 a,
              (starts_with-not (codes "UUID=") fs.device).0 b,
              (starts_with-not (codes "PARTUUID=") fs.device).0 c,
            );
        mappers_covered = covers_iff.0 k;
      }

  back : IsMountable plan → validate plan ≡ ok tt
  unfolding validate AllCovered
  back mountable =
      rw
        ((for_each_iff check_device plan.filesystems).1 (λ fs m.
          let (a, b, c) = mountable.no_short_form fs m in
          (check_device-ok fs).1 (
            (starts_with-not (codes "LABEL=") fs.device).1 a,
            (starts_with-not (codes "UUID=") fs.device).1 b,
            (starts_with-not (codes "PARTUUID=") fs.device).1 c,
          )))
        (covers_iff.1 mountable.mappers_covered)

-- Config::validate accepts a configuration exactly where no device begins with LABEL=, UUID= or
-- PARTUUID=, and for each device below /dev/mapper/ there is an activation of the kind lvm or mdraid,
-- or one of a luks kind that lists this very device.
pub validate_iff : (plan : Plan) → (validate plan ≡ ok tt) ↔ IsMountable plan
validate_iff plan = (there plan, back plan)

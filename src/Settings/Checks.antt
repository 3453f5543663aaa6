-- ===== src/Settings/Checks.antt =====
-- What it means that each of the tests of Config::validate passes.
use siratis_nmbl_bootloader.Prelude.{
  ◌≡◌, refl, sym, ◌∙◌, ◌↔◌, inl, inr, Bool, true, false, not, ◌||◌, some, List, [], ◌∷◌, ◌++◌,
  arith, if◌then◌else◌, Option-cases, any, Bytes, Outcome, ok, err, ◌>>=◌, Mem, first, later, codes,
}
use siratis_nmbl_bootloader.Refuse.Argv.{Activation, strip_prefix}
use siratis_nmbl_bootloader.Refuse.Commands.{strip_prefix-some}
use siratis_nmbl_bootloader.Refuse.Relock.{FilesystemEntry}
use siratis_nmbl_bootloader.Settings.Validate.{
  starts_with, ConfigInvalid, for_each, check_device, produces, check_covered, short_form_device,
  uncovered_mapper,
}

abbrev pub StartsWith : Bytes → Bytes → Type 0
StartsWith prefix text = (rest : Bytes) × (text ≡ prefix ++ rest)

strip_prefix-append : (prefix rest : Bytes) → strip_prefix prefix (prefix ++ rest) ≡ some rest
unfolding strip_prefix
strip_prefix-append [] rest = refl
strip_prefix-append (p ∷ prefix) rest = ground (arith, strip_prefix-append prefix rest)

pub starts_with_iff :
    (prefix text : Bytes) → (starts_with prefix text ≡ true) ↔ StartsWith prefix text
starts_with_iff prefix text = (there, back)
  where
    there : starts_with prefix text ≡ true → StartsWith prefix text
    there h = elim (Option-cases (strip_prefix prefix text)) [
      | inl e ↦ absurd (let k : false ≡ true = (rw e at h) in cc)
      | inr (rest, e) ↦ (rest, strip_prefix-some prefix text rest e)
    ]

    back : StartsWith prefix text → starts_with prefix text ≡ true
    back (rest, e) = rw (e, strip_prefix-append prefix rest) refl

pub for_each_iff :
    (check : FilesystemEntry → Outcome ConfigInvalid (Unit {0}))
    (filesystems : List FilesystemEntry)
    → (for_each check filesystems ≡ ok tt)
      ↔ ((fs : FilesystemEntry) → Mem fs filesystems → check fs ≡ ok tt)
unfolding for_each
for_each_iff check [] = (λ h fs m. elim m [ ], λ h. refl)
for_each_iff check (fs ∷ filesystems) = (
  there (check fs) refl (for_each_iff check filesystems).0,
  λ h. rw (h fs first) ((for_each_iff check filesystems).1 (λ g m. h g (later m))),
)
  where
    there :
        (o : Outcome ConfigInvalid (Unit {0}))
        → check fs ≡ o
        → (for_each check filesystems ≡ ok tt
            → (g : FilesystemEntry) → Mem g filesystems
            → check g ≡ ok tt)
        → (o >>= λ _. for_each check filesystems) ≡ ok tt
        → (g : FilesystemEntry) → Mem g (fs ∷ filesystems)
        → check g ≡ ok tt
    there (err why) e ih h g m = absurd (cc)
    there (ok u) e ih h g first = e
    there (ok u) e ih h g (later m) = ih h g m

abbrev pub passed : Outcome ConfigInvalid (Unit {0})
passed = ok tt

not_true : (b : Bool) → ¬ (b ≡ true) → b ≡ false
not_true true h = absurd (h refl)
not_true false h = refl

pub starts_with-not :
    (prefix text : Bytes) → (starts_with prefix text ≡ false) ↔ (¬ StartsWith prefix text)
starts_with-not prefix text = (
  λ h s. let k : true ≡ false = sym ((starts_with_iff prefix text).1 s) ∙ h in absurd (cc),
  λ h. not_true (starts_with prefix text) (λ e. h ((starts_with_iff prefix text).0 e)),
)

pub check_device-ok :
    (fs : FilesystemEntry)
    → (check_device fs ≡ ok tt) ↔ (
        (starts_with (codes "LABEL=") fs.device ≡ false)
        × (starts_with (codes "UUID=") fs.device ≡ false)
        × (starts_with (codes "PARTUUID=") fs.device ≡ false))
unfolding check_device
check_device-ok fs =
    go (starts_with (codes "LABEL=") fs.device) (starts_with (codes "UUID=") fs.device)
      (starts_with (codes "PARTUUID=") fs.device)
  where
    go :
        (a b c : Bool)
        → ((if a || b || c then err (short_form_device fs) else ok tt) ≡ passed)
          ↔ ((a ≡ false) × (b ≡ false) × (c ≡ false))
    go true b c = (λ h. absurd (cc), λ (x, y, z). absurd (cc))
    go false true c = (λ h. absurd (cc), λ (x, y, z). absurd (cc))
    go false false true = (λ h. absurd (cc), λ (x, y, z). absurd (cc))
    go false false false = (λ h. (refl, refl, refl), λ h. refl)

pub check_covered-ok :
    (activations : List Activation) (fs : FilesystemEntry)
    → (check_covered activations fs ≡ ok tt) ↔ (
        starts_with (codes "/dev/mapper/") fs.device ≡ true
        → any (λ a. produces fs.device a) activations ≡ true)
unfolding check_covered
check_covered-ok activations fs =
    go (starts_with (codes "/dev/mapper/") fs.device) (any (λ a. produces fs.device a) activations)
  where
    go :
        (a b : Bool)
        → ((if not a then ok tt else if b then ok tt else err (uncovered_mapper fs)) ≡ passed)
          ↔ (a ≡ true → b ≡ true)
    go false b = (λ h k. absurd (cc), λ h. refl)
    go true true = (λ h k. refl, λ h. refl)
    go true false = (λ h. absurd (cc), λ h. absurd (let k : false ≡ true = h refl in cc))

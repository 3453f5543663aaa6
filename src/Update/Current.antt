-- ===== src/Update/Current.antt =====
-- How an installation begins: the bundle, the selector, and whether the bundle is there already.
use siratis_nmbl_bootloader.Prelude.{
  ◌≡◌, refl, sym, ap, subst, ◌∙◌, Bool, true, false, Option, none, some, if_case, Bytes, bytes_eq,
  bytes_eq→eq, Outcome, ok, err,
}
use siratis_nmbl_bootloader.Update.Manifest.{Error, Libraries, Slot}
use siratis_nmbl_bootloader.Update.Bundle.{Node, ValidatedBundle, bundle}
use siratis_nmbl_bootloader.Update.Disk.{Root, World}
use siratis_nmbl_bootloader.Update.Slots.{selected, read_active}
use siratis_nmbl_bootloader.Update.Install.{
  same_manifest, has_manifest, read_validated, is_current, is_installed,
}
use siratis_nmbl_bootloader.Update.Steps.{Post, Ensures, Ensures-then, lift-Ensures, Ensures-look}
use siratis_nmbl_bootloader.Update.Untouched.{inspect-Keeps}
use siratis_nmbl_bootloader.Update.Safety.{Holds}

ok_unique :
    (a b : Option Slot) (result : Outcome Error (Option Slot))
    → result ≡ ok a
    → result ≡ ok b
    → a ≡ b
ok_unique a b result h k = cc

module _ (lib : Libraries) (public_key : Option Bytes) (d : Root) (active : Option Slot)
    (reads : selected d.selector ≡ ok active) where
  pub read_validated-Ensures :
      (from : Option Node)
      → Ensures
          (λ r. r ≡ d)
          (read_validated lib public_key from)
          (λ b r. (r ≡ d) × (bundle lib from public_key ≡ ok b))
          (λ r. r ≡ d)
  unfolding read_validated
  read_validated-Ensures from =
      Ensures-then (inspect-Keeps (λ r. r ≡ d))
        (λ _. lift-Ensures _ (λ b accepted r h. (h, accepted)) (λ r h. h))

  active_unique :
      (root r : Root) (a : Option Slot)
      → r ≡ root
      → r ≡ d
      → selected root.selector ≡ ok a
      → a ≡ active
  active_unique root r a at same made =
      let e : selected root.selector ≡ selected d.selector =
        ap (λ (q : Root). selected q.selector) (sym at ∙ same) in
      ok_unique a active (selected root.selector) made (e ∙ reads)

  pub read_active-Ensures :
      Ensures (λ r. r ≡ d) read_active (λ a r. (r ≡ d) × (a ≡ active)) (λ r. r ≡ d)
  unfolding read_active
  read_active-Ensures = Ensures-then (inspect-Keeps (λ r. r ≡ d)) (λ _. Ensures-look (λ root.
      lift-Ensures _ (λ a made r h. (h.1, active_unique root r a (h.0) (h.1) made)) (λ r h. h.1)))

  module _ (b : ValidatedBundle) where
    -- What a positive answer means.
    abbrev pub Current : Option Slot → Bool → Type 0
    Current a true = (t : Slot) × (a ≡ some t) × Holds lib public_key b (d.slot t)
    Current a false = Unit

    matched :
        (a : Option Slot) (t : Slot) (found : ValidatedBundle)
        → a ≡ some t
        → bundle lib (d.slot t) public_key ≡ ok found
        → (same : Bool) → bytes_eq found.manifest_bytes b.manifest_bytes ≡ same
        → Current a same
    matched a t found is accepted false h = tt
    matched a t found is accepted true h = (
      t,
      is,
      record { contents = found; validates = accepted; same_manifest = bytes_eq→eq _ _ h },
    )

    same_manifest-Post :
        (t : Slot) (result : Outcome Error ValidatedBundle × World)
        → Post
            (λ found r. (r ≡ d) × (bundle lib (d.slot t) public_key ≡ ok found))
            (λ r. r ≡ d)
            result
        → Post
            (λ same r. (r ≡ d) × Current (some t) same)
            (λ r. r ≡ d)
            (same_manifest b.manifest_bytes result)
    same_manifest-Post t (ok found, w) h = (h.0, matched (some t) t found refl (h.1) _ refl)
    same_manifest-Post t (err why, w) h = (h, tt)

    is_current-Post :
        (t : Slot) (w : World)
        → w.root ≡ d
        → Post
            (λ same r. (r ≡ d) × Current (some t) same)
            (λ r. r ≡ d)
            (is_current lib public_key b.manifest_bytes (d.slot t) w)
    is_current-Post t w h =
        if_case (Post (λ same r. (r ≡ d) × Current (some t) same) (λ r. r ≡ d))
          (has_manifest (d.slot t))
          (λ there.
            same_manifest-Post t (read_validated lib public_key (d.slot t) w)
              ((read_validated-Ensures (d.slot t)).run w h))
          (λ absent. (h, tt))

    pub is_installed-Ensures :
        (a : Option Slot)
        → Ensures
            (λ r. r ≡ d)
            (is_installed lib public_key b.manifest_bytes a)
            (λ same r. (r ≡ d) × Current a same)
            (λ r. r ≡ d)
    is_installed-Ensures none =
        lift-Ensures _ (λ same made r h. (h, subst (Current none) {x = false} (cc) tt)) (λ r h. h)
    is_installed-Ensures (some t) = Ensures-look (λ root. record {
      run = λ w h.
          subst
            (λ q.
              Post (λ same r. (r ≡ d) × Current (some t) same) (λ r. r ≡ d)
                (is_current lib public_key b.manifest_bytes (q.slot t) w))
            (sym (h.1) ∙ h.0) (is_current-Post t w (h.1));
    })

-- ===== src/Update/Survival.antt =====
-- What every run of an installation leaves, and what its result says.
use siratis_nmbl_bootloader.Prelude.{
  ◌≡◌, refl, sym, ap, subst, inl, inr, Bool, true, false, Option, none, some, Bytes, ok,
}
use siratis_nmbl_bootloader.Update.Manifest.{Libraries, Slot}
use siratis_nmbl_bootloader.Update.Bundle.{Node, ValidatedBundle, bundle}
use siratis_nmbl_bootloader.Update.Disk.{Root, World, ◌>>=◌, inspect, other_slot}
use siratis_nmbl_bootloader.Update.Slots.{Limits, selected}
use siratis_nmbl_bootloader.Update.Install.{
  Installed, inactive, active_or_a, unless_current, is_installed, replace, install, activated,
  unchanged,
}
use siratis_nmbl_bootloader.Update.Steps.{
  Ensures, Ensures-then, Ensures-weaken, Ensures-given, Ensures-from,
}
use siratis_nmbl_bootloader.Update.Untouched.{inspect-Keeps}
use siratis_nmbl_bootloader.Update.Safety.{kept, other_slot-kept, Untouched, Holds, Switched}
use siratis_nmbl_bootloader.Update.Atomic.{Survives, replace-Ensures}
use siratis_nmbl_bootloader.Update.Current.{
  read_validated-Ensures, read_active-Ensures, Current, is_installed-Ensures,
}

module _ (lib : Libraries) (public_key : Option Bytes) (source : Option Node) (d : Root)
    (active : Option Slot) where
  -- Everything a boot reads is as it was, or the new set is in place and selected.
  pub data Survival (r : Root) : Type 0 where
    as_before : Untouched d (kept active) r → Survival r
    switched :
        (b : ValidatedBundle)
        → bundle lib source public_key ≡ ok b
        → Switched lib public_key b d (kept active) r
        → Survival r

  -- What a result promises of the state.
  abbrev pub Completed : Installed → Root → Type 0
  Completed (activated t) r =
      (b : ValidatedBundle) × (bundle lib source public_key ≡ ok b)
      × (t ≡ inactive active)
      × Switched lib public_key b d (kept active) r
  Completed (unchanged t) r =
      (b : ValidatedBundle) × (bundle lib source public_key ≡ ok b)
      × (active ≡ some t)
      × (r ≡ d)
      × Holds lib public_key b (d.slot t)

module _ (lib : Libraries) (public_key : Option Bytes) (source : Option Node) (d : Root)
    (active : Option Slot) (reads : selected d.selector ≡ ok active) where
  pub still : (r : Root) → r ≡ d → Survival lib public_key source d active r
  still r h = as_before (ap (λ q. q.slot (kept active)) h, ap (λ q. q.selector) h)

  module _ (b : ValidatedBundle) where
    replaced :
        (limits : Limits) (t : Slot)
        → t ≡ other_slot (kept active)
        → Ensures
            (Untouched d (kept active))
            (replace lib public_key limits t b)
            (λ a r. (a ≡ activated t) × Switched lib public_key b d (kept active) r)
            (Survives lib public_key b d (kept active))
    replaced limits t e =
        subst
          (λ q.
            Ensures (Untouched d (kept active)) (replace lib public_key limits q b)
              (λ a r. (a ≡ activated q) × Switched lib public_key b d (kept active) r)
              (Survives lib public_key b d (kept active)))
          (sym e) (replace-Ensures lib public_key b d (kept active) limits)

    module _ (accepted : bundle lib source public_key ≡ ok b) where
      finished :
          (result : Installed) (r : Root)
          → result ≡ activated (inactive active)
          → Switched lib public_key b d (kept active) r
          → (Completed lib public_key source d active) result r
      finished (activated t) r e sw = (b, accepted, cc, sw)
      finished (unchanged t) r e sw = absurd (cc)

      found_current :
          (a : Option Slot) (t : Slot)
          → a ≡ some t
          → (active_or_a a ≡ t) × (a ≡ some (active_or_a a))
      found_current none t e = absurd (cc)
      found_current (some u) t e = (cc, refl)

      kept-Current :
          (limits : Limits) (w : World)
          → (w.root ≡ d) × Current lib public_key d active reads b active true
          → (Completed lib public_key source d active) (unchanged (active_or_a active)) w.root
      kept-Current limits w (same, (t, is, holds)) = (
        b,
        accepted,
        (found_current active t is).1,
        same,
        subst (λ u. Holds lib public_key b (d.slot u)) (sym ((found_current active t is).0)) holds,
      )

      -- The branch that returns `Unchanged`, and the other one.
      chosen :
          (limits : Limits) (current : Bool)
          → Ensures
              (λ r. (r ≡ d) × Current lib public_key d active reads b active current)
              (unless_current current
                (active_or_a active)
                (replace lib public_key limits (inactive active) b))
              (Completed lib public_key source d active)
              (Survival lib public_key source d active)
      chosen limits true = record { run = λ w h. kept-Current limits w h }
      chosen limits false =
          Ensures-from {P = Untouched d (kept active)}
            (λ r h. (ap (λ q. q.slot (kept active)) (h.0), ap (λ q. q.selector) (h.0)))
            (Ensures-weaken (replaced limits (inactive active) (other_slot-kept active))
              (λ a r h. finished a r (h.0) (h.1))
              (λ r h. elim h [ inl u ↦ as_before u | inr sw ↦ switched b accepted sw ]))

    checked :
        (limits : Limits) (a : Option Slot)
        → bundle lib source public_key ≡ ok b
        → a ≡ active
        → Ensures
            (λ r. r ≡ d)
            (is_installed lib public_key b.manifest_bytes a >>= λ current.
              unless_current current (active_or_a a) (replace lib public_key limits (inactive a) b))
            (Completed lib public_key source d active)
            (Survival lib public_key source d active)
    checked limits a accepted is =
        subst
          (λ q.
            Ensures (λ r. r ≡ d)
              (is_installed lib public_key b.manifest_bytes q >>= λ current.
                unless_current current (active_or_a q)
                  (replace lib public_key limits (inactive q) b))
              (Completed lib public_key source d active) (Survival lib public_key source d active))
          (sym is)
          (Ensures-then
            (Ensures-weaken (is_installed-Ensures lib public_key d active reads b active)
              (λ a r h. h) still)
            (λ current. chosen accepted limits current))

  pub install-Ensures :
      (limits : Limits)
      → Ensures
          (λ r. r ≡ d)
          (install lib public_key source limits)
          (Completed lib public_key source d active)
          (Survival lib public_key source d active)
  unfolding install
  install-Ensures limits =
      Ensures-then
        (Ensures-weaken (read_validated-Ensures lib public_key d active reads source) (λ b r h. h)
          still)
        (λ b. Ensures-given (λ accepted. Ensures-then (look_on still) (λ _.
          Ensures-then (look_on still) (λ _.
            Ensures-then
              (Ensures-weaken (read_active-Ensures lib public_key d active reads) (λ a r h. h)
                still)
              (λ a. Ensures-given (λ is. checked b limits a accepted is))))))
    where
      look_on :
          {E : Root → Type 0}
          → ((r : Root) → r ≡ d → E r)
          → Ensures (λ r. r ≡ d) inspect (λ a r. r ≡ d) E
      look_on E = Ensures-weaken (inspect-Keeps (λ r. r ≡ d)) (λ a r h. h) E

-- ===== src/Update/Atomic.antt =====
-- The whole installation: the switch of the selector, and what every run of it ends in.
use siratis_nmbl_bootloader.Prelude.{◌≡◌, refl, ◌⊎◌, inl, inr, Option, none, some, arith, Bytes}
use siratis_nmbl_bootloader.Update.Manifest.{Libraries, Slot}
use siratis_nmbl_bootloader.Update.Bundle.{ValidatedBundle}
use siratis_nmbl_bootloader.Update.Disk.{Root, other_slot}
use siratis_nmbl_bootloader.Update.Slots.{
  Limits, selector_text, write_selector_new, remove_stale, write_selector,
}
use siratis_nmbl_bootloader.Update.Install.{replace, activated}
use siratis_nmbl_bootloader.Update.Steps.{
  Ensures, Keeps, Ensures-then, Keeps-lift, lift-Ensures, Ensures-weaken, Ensures-look,
  call-Ensures, call-Keeps, Ensures-from,
}
use siratis_nmbl_bootloader.Update.Untouched.{preflight-Keeps}
use siratis_nmbl_bootloader.Update.Safety.{
  Untouched, put_other-Untouched, Ready, Switched, publish-Ensures,
}

module _ (lib : Libraries) (public_key : Option Bytes) (b : ValidatedBundle) (d : Root)
    (s : Slot) where
  -- Either slot boots: nothing has changed that a boot reads, or the new set is in place.
  abbrev pub Survives : Root → Type 0
  Survives r = Untouched d s r ⊎ Switched lib public_key b d s r

  remove_stale-Keeps :
      (text : Option Bytes) → Keeps (Ready lib public_key b d s) (remove_stale text)
  remove_stale-Keeps none = Keeps-lift _ _
  remove_stale-Keeps (some text) = call-Keeps _ _ _ (λ r h. h) (λ n r h. h)

  write_selector_new-Ensures :
      (text : Bytes)
      → Ensures
          (Ready lib public_key b d s)
          (write_selector_new text)
          (λ a r. Ready lib public_key b d s r × (r.selector_new ≡ some text))
          Survives
  write_selector_new-Ensures text =
      Ensures-then
        (call-Ensures _ _ _ (Ready lib public_key b d s) Survives (λ r h. h) (λ n r h. inl (h.0))
          (λ r h. inl (h.0)))
        (λ _.
          Ensures-then
            (call-Ensures _ _ _ (λ r. Ready lib public_key b d s r × (r.selector_new ≡ some text))
              Survives (λ r h. (h, refl)) (λ n r h. inl (h.0)) (λ r h. inl (h.0)))
            (λ _.
              call-Ensures _ _ _ _ Survives (λ r h. h) (λ n r h. inl (h.0.0)) (λ r h. inl (h.0.0))))

  write_selector-Ensures :
      Ensures
        (Ready lib public_key b d s)
        (write_selector (other_slot s))
        (λ a. Switched lib public_key b d s)
        Survives
  unfolding write_selector
  write_selector-Ensures = Ensures-look (λ root.
      Ensures-from (λ r h. h.1)
        (Ensures-then
          (Ensures-weaken (remove_stale-Keeps root.selector_new) (λ a r h. h) (λ r h. inl (h.0)))
          (λ _. Ensures-then (write_selector_new-Ensures (selector_text (other_slot s))) (λ _.
            Ensures-then
              (call-Ensures _ _ _ (Switched lib public_key b d s) Survives
                (λ r h. (h.0.0.0, h.1, h.0.1)) (λ n r h. inl (h.0.0)) (λ r h. inl (h.0.0)))
              (λ _. call-Ensures _ _ _ _ Survives (λ r h. h) (λ n r h. inr h) (λ r h. inr h))))))

  pub replace-Ensures :
      (limits : Limits)
      → Ensures
          (Untouched d s)
          (replace lib public_key limits (other_slot s) b)
          (λ a r. (a ≡ activated (other_slot s)) × Switched lib public_key b d s r)
          Survives
  unfolding replace
  replace-Ensures limits = Ensures-then (lift-Ensures _ (λ a made r h. h) (λ r h. inl h)) (λ _.
      Ensures-then
        (Ensures-weaken
          (preflight-Keeps _ (other_slot s) (put_other-Untouched d s) limits b.allocated_bytes)
          (λ a r h. h) (λ r h. inl h))
        (λ _.
          Ensures-then
            (Ensures-weaken (publish-Ensures lib public_key b d s limits.fail_after_files)
              (λ a r h. h) (λ r h. inl h))
            (λ _.
              Ensures-then write_selector-Ensures
                (λ _. lift-Ensures _ (λ a made r h. (ground arith, h)) (λ r h. inr h)))))

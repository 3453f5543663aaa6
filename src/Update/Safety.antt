-- ===== src/Update/Safety.antt =====
-- What an installation leaves in the boot-set directory when calls of it fail or the machine stops.
use siratis_nmbl_bootloader.Prelude.{
  ℕ, ◌≡◌, refl, sym, subst, ◌∙◌, Option, none, some, Bytes, ok, codes,
}
use siratis_nmbl_bootloader.Update.Manifest.{Libraries, Slot, slot_a, slot_b}
use siratis_nmbl_bootloader.Update.Bundle.{Node, ValidatedBundle, bundle, plain, folder, not_folder}
use siratis_nmbl_bootloader.Update.Disk.{
  Root, ◌>>◌, atomic, inspect, other_slot, place, put_slot, put_stage,
}
use siratis_nmbl_bootloader.Update.Slots.{selector_text, remove_confined, installed, staging}
use siratis_nmbl_bootloader.Update.Install.{inactive, read_validated, publish}
use siratis_nmbl_bootloader.Update.Steps.{
  Ensures, Ensures-then, lift-Ensures, Ensures-both, Ensures-weaken, Ensures-look, call-Ensures,
  Ensures-from,
}
use siratis_nmbl_bootloader.Update.Untouched.{remove_confined-Keeps, stage_or_clean-Keeps}
use siratis_nmbl_bootloader.Update.Staged.{Has, stage_or_clean-Has}
use siratis_nmbl_bootloader.Update.Source.{manifest_bytes-bundle_files}
use siratis_nmbl_bootloader.Update.Entries.{lookup_node, place_same}

-- The selector file read as a slot, and the slot that an installation leaves alone.
abbrev pub kept : Option Slot → Slot
kept none = slot_b
kept (some s) = s

pub other_slot-kept : (active : Option Slot) → inactive active ≡ other_slot (kept active)
other_slot-kept none = refl
other_slot-kept (some s) = refl

place_other :
    (s : Slot) (found : Option Node) (nodes : Slot → Option Node)
    → place (other_slot s) found nodes s ≡ nodes s
place_other slot_a found nodes = refl
place_other slot_b found nodes = refl

module _ (d : Root) (s : Slot) where
  -- The slot and the selector are as they were.
  abbrev pub Untouched : Root → Type 0
  Untouched r = (r.slot s ≡ d.slot s) × (r.selector ≡ d.selector)

  pub put_other-Untouched :
      (found : Option Node) (r : Root) → Untouched r → Untouched (put_slot (other_slot s) found r)
  put_other-Untouched found r h = (place_other s found r.slot ∙ h.0, h.1)

  stage-Untouched :
      (t : Slot) (found : Option Node) (r : Root) → Untouched r → Untouched (put_stage t found r)
  stage-Untouched t found r h = h

module _ (lib : Libraries) (public_key : Option Bytes) where
  -- A directory that validates, with the manifest of a bundle.
  pub record Holds (b : ValidatedBundle) (found : Option Node) : Type 0 where
    pub contents : ValidatedBundle
    pub validates : bundle lib found public_key ≡ ok contents
    pub same_manifest : contents.manifest_bytes ≡ b.manifest_bytes

  Holds-lookup :
      (b found : ValidatedBundle) (directory : Option Node)
      → lookup_node (codes "manifest.json") directory ≡ some (plain b.manifest_bytes)
      → bundle lib directory public_key ≡ ok found
      → Holds b directory
  Holds-lookup b found none present accepted = absurd (cc)
  Holds-lookup b found (some not_folder) present accepted = absurd (cc)
  Holds-lookup b found (some (folder files)) present accepted = record {
    contents = found;
    validates = accepted;
    same_manifest =
        manifest_bytes-bundle_files lib files b.manifest_bytes present public_key found accepted;
  }

  module _ (b : ValidatedBundle) (d : Root) (s : Slot) where
    -- The other slot is complete as well.
    abbrev pub Ready : Root → Type 0
    Ready r = Untouched d s r × Holds b (r.slot (other_slot s))

    -- The selector names the other slot, which is complete; this one is as it was.
    abbrev pub Switched : Root → Type 0
    Switched r =
        (r.slot s ≡ d.slot s)
        × (r.selector ≡ some (selector_text (other_slot s)))
        × Holds b (r.slot (other_slot s))

    Staged : Root → Type 0
    Staged r = Untouched d s r × Holds b (r.stage (other_slot s))

    read_validated-Staged :
        (root : Root)
        → Ensures
            (λ r.
              (r ≡ root)
              × (Untouched d s r
                  × Has (other_slot s) (codes "manifest.json") (plain b.manifest_bytes) r))
            (read_validated lib public_key (root.stage (other_slot s)))
            (λ a. Staged)
            (Untouched d s)
    unfolding read_validated Staged
    read_validated-Staged root =
        Ensures-then
          (call-Ensures _ _ _ _ (Untouched d s) (λ r h. h) (λ n r h. h.1.0) (λ r h. h.1.0))
          (λ _.
            lift-Ensures _
              (λ found accepted r h.
                (h.1.0, Holds-lookup b found (r.stage (other_slot s)) (h.1.1) (rw (h.0) accepted)))
              (λ r h. h.1.0))

    place_same_slot :
        (found : Option Node) (nodes : Slot → Option Node)
        → place (other_slot s) found nodes (other_slot s) ≡ found
    place_same_slot found nodes = place_same (other_slot s) found nodes

    from_Staged :
        Ensures Staged
          (remove_confined (installed (other_slot s))
            >> (atomic (λ root.
                  put_slot
                    (other_slot s)
                    (root.stage (other_slot s))
                    (put_stage (other_slot s) none root))
                >> inspect))
          (λ a. Ready)
          (Untouched d s)
    unfolding Staged
    from_Staged =
        Ensures-then
          (Ensures-weaken
            (remove_confined-Keeps Staged (installed (other_slot s))
              (λ found r h. (put_other-Untouched d s found r (h.0), h.1)))
            (λ a r h. h) (λ r h. h.0))
          (λ _.
            Ensures-then
              (call-Ensures _ _ _ Ready (Untouched d s)
                (λ r h. (
                  put_other-Untouched d s _ r (h.0),
                  subst (Holds b) (sym (place_same_slot (r.stage (other_slot s)) r.slot)) (h.1),
                ))
                (λ n r h. h.0) (λ r h. h.0))
              (λ _. call-Ensures _ _ _ _ (Untouched d s) (λ r h. h) (λ n r h. h.0) (λ r h. h.0)))

    pub publish-Ensures :
        (fail_after : Option ℕ)
        → Ensures
            (Untouched d s)
            (publish lib public_key (other_slot s) b fail_after)
            (λ a. Ready)
            (Untouched d s)
    unfolding publish Staged
    publish-Ensures fail_after =
        Ensures-then (remove_confined-Keeps (Untouched d s) (staging (other_slot s)) (λ n r h. h))
          (λ _.
            Ensures-then
              (call-Ensures _ _ _ (Untouched d s) (Untouched d s) (λ r h. h) (λ n r h. h)
                (λ r h. h))
              (λ _.
                Ensures-then
                  (Ensures-from (λ r h. (h, tt))
                    (Ensures-both
                      (stage_or_clean-Keeps (Untouched d s) (stage-Untouched d s) (other_slot s) b
                        fail_after)
                      (stage_or_clean-Has (other_slot s) b fail_after)))
                  (λ _.
                    Ensures-then
                      (call-Ensures _ _ _ _ (Untouched d s) (λ r h. h) (λ n r h. h.0) (λ r h. h.0))
                      (λ _.
                        Ensures-look
                          (λ root. Ensures-then (read_validated-Staged root) (λ _. from_Staged))))))

-- ===== src/Update/Untouched.antt =====
-- The parts of an installation that leave the other slot and the selector alone.
use siratis_nmbl_bootloader.Prelude.{
  ℕ, ◌+◌, Option, none, some, List, [], ◌∷◌, leb, if_case, Bytes, Outcome, ok, err,
}
use siratis_nmbl_bootloader.Update.Manifest.{Error, Entry, Slot}
use siratis_nmbl_bootloader.Update.Bundle.{Node, Artifact, ValidatedBundle, folder, not_folder}
use siratis_nmbl_bootloader.Update.Disk.{Root, World, M, inspect, put_slot, put_stage}
use siratis_nmbl_bootloader.Update.Staging.{
  create_file, fill_file, write_staged, copy_open, stage_artifact, stage_artifacts, stage_bundle,
  remove_stage, cleaned, stage_or_clean,
}
use siratis_nmbl_bootloader.Update.Slots.{
  Limits, selector_text, read_active, write_selector_new, write_selector, sum_blocks,
  allocated_tree, Place, node_at, set_at, remove_node, remove_existing, remove_confined, free_space,
  reclaim, preflight, installed, staging,
}
use siratis_nmbl_bootloader.Update.Steps.{
  Post, Keeps, Ensures-then, Keeps-lift, Keeps-look, call-Keeps,
}
use siratis_nmbl_bootloader.Update.Slots

module _ (P : Root → Type 0) where
  pub inspect-Keeps : Keeps P inspect
  inspect-Keeps = call-Keeps P (λ root. root) (λ n root. root) (λ root h. h) (λ n root h. h)

  pub read_active-Keeps : Keeps P read_active
  unfolding read_active
  read_active-Keeps = Ensures-then inspect-Keeps (λ _. Keeps-look (λ root. Keeps-lift P _))

  module _ (p : Place)
      (set : (node : Option Node) (root : Root) → P root → P (Slots.set_at p node root)) where
    remove_node-Keeps : (node : Node) → Keeps P (remove_node p node)
    remove_node-Keeps not_folder = Keeps-lift P _
    remove_node-Keeps (folder files) = call-Keeps P _ _ (λ r h. set _ r h) (λ n r h. set _ r h)

    remove_existing-Keeps : (node : Option Node) → Keeps P (remove_existing p node)
    remove_existing-Keeps none = Keeps-lift P _
    remove_existing-Keeps (some node) = Ensures-then inspect-Keeps (λ _. remove_node-Keeps node)

    pub remove_confined-Keeps : Keeps P (remove_confined p)
    unfolding remove_confined
    remove_confined-Keeps = Keeps-look (λ root. remove_existing-Keeps (Slots.node_at p root))

  -- Freeing the space of one slot.
  module _ (s : Slot)
      (slotted : (node : Option Node) (root : Root) → P root → P (put_slot s node root)) where
    reclaim-Keeps : (limits : Limits) (need : ℕ) → Keeps P (reclaim limits s need)
    reclaim-Keeps limits need = Ensures-then inspect-Keeps (λ _. Keeps-look (λ root.
        Ensures-then (Keeps-lift P _)
          (λ _. Ensures-then (Keeps-lift P _) (λ _. remove_confined-Keeps (installed s) slotted))))

    pub preflight-Keeps : (limits : Limits) (need : ℕ) → Keeps P (preflight limits s need)
    unfolding preflight
    preflight-Keeps limits need = Ensures-then inspect-Keeps (λ _.
        if_case (λ (m : M (Unit {0})). Keeps P m) (leb need (Slots.free_space limits))
          (λ enough. Keeps-lift P (ok tt)) (λ low. reclaim-Keeps limits need))

-- A property that the staging directories have no part in.
module _ (P : Root → Type 0)
    (staged : (s : Slot) (node : Option Node) (root : Root)
      → P root
      → P (put_stage s node root)) where
  create_file-Keeps : (s : Slot) (name : Bytes) → Keeps P (create_file s name)
  create_file-Keeps s name = Keeps-look (λ root.
      Ensures-then (Keeps-lift P _) (λ _. call-Keeps P _ _ (λ r h. staged s _ r h) (λ n r h. h)))

  fill_file-Keeps : (s : Slot) (name bytes : Bytes) → Keeps P (fill_file s name bytes)
  fill_file-Keeps s name bytes = call-Keeps P _ _ (λ r h. staged s _ r h) (λ n r h. staged s _ r h)

  write_staged-Keeps : (s : Slot) (name bytes : Bytes) → Keeps P (write_staged s name bytes)
  unfolding write_staged
  write_staged-Keeps s name bytes =
      Ensures-then (create_file-Keeps s name)
        (λ _. Ensures-then (fill_file-Keeps s name bytes) (λ _. (inspect-Keeps P)))

  copy_open-Keeps :
      (s : Slot) (name source : Bytes) (expected : ℕ) → Keeps P (copy_open s name source expected)
  unfolding copy_open
  copy_open-Keeps s name source expected = Ensures-then (create_file-Keeps s name) (λ _.
      Ensures-then (fill_file-Keeps s name source)
        (λ _. Ensures-then (Keeps-lift P _) (λ _. (inspect-Keeps P))))

  stage_artifact-Keeps :
      (s : Slot) (entries : List Entry) (fail_after : Option ℕ) (written : ℕ) (artifact : Artifact)
      → Keeps P (stage_artifact s entries fail_after written artifact)
  unfolding stage_artifact
  stage_artifact-Keeps s entries fail_after written artifact = Ensures-then (Keeps-lift P _) (λ _.
      Ensures-then (Keeps-lift P _) (λ entry. Ensures-then (inspect-Keeps P) (λ _.
        Ensures-then (inspect-Keeps P)
          (λ _. Ensures-then (copy_open-Keeps s _ _ _) (λ _. copy_open-Keeps s _ _ _)))))

  stage_artifacts-Keeps :
      (s : Slot) (entries : List Entry) (fail_after : Option ℕ) (written : ℕ)
      (artifacts : List Artifact)
      → Keeps P (stage_artifacts s entries fail_after written artifacts)
  unfolding stage_artifacts
  stage_artifacts-Keeps s entries fail_after written [] = Keeps-lift P (ok tt)
  stage_artifacts-Keeps s entries fail_after written (artifact ∷ artifacts) =
      Ensures-then (stage_artifact-Keeps s entries fail_after written artifact)
        (λ _. stage_artifacts-Keeps s entries fail_after (written + 1) artifacts)

  stage_bundle-Keeps :
      (s : Slot) (b : ValidatedBundle) (fail_after : Option ℕ)
      → Keeps P (stage_bundle s b fail_after)
  unfolding stage_bundle
  stage_bundle-Keeps s b fail_after = Ensures-then (write_staged-Keeps s _ _) (λ _.
      Ensures-then (write_staged-Keeps s _ _)
        (λ _. stage_artifacts-Keeps s _ fail_after 0 b.artifacts))

  remove_stage-Keeps : (s : Slot) → Keeps P (remove_stage s)
  remove_stage-Keeps s = call-Keeps P _ _ (λ r h. staged s _ r h) (λ n r h. staged s _ r h)

  Post-root :
      {A : Type 0} (result : Outcome Error A × World) → Post (λ a. P) P result → P result.1.root
  Post-root (ok a, w) h = h
  Post-root (err why, w) h = h

  cleaned-Keeps :
      (s : Slot) (result : Outcome Error (Unit {0}) × World)
      → Post (λ a. P) P result
      → Post (λ a. P) P (cleaned s result)
  cleaned-Keeps s (ok _, w) h = h
  cleaned-Keeps s (err why, w) h = Post-root (remove_stage s w) ((remove_stage-Keeps s).run w h)

  pub stage_or_clean-Keeps :
      (s : Slot) (b : ValidatedBundle) (fail_after : Option ℕ)
      → Keeps P (stage_or_clean s b fail_after)
  unfolding stage_or_clean
  stage_or_clean-Keeps s b fail_after = record {
    run = λ w h.
        cleaned-Keeps s (stage_bundle s b fail_after w)
          ((stage_bundle-Keeps s b fail_after).run w h);
  }

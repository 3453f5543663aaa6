-- ===== src/Update/Staged.antt =====
-- What the staging directory of a slot holds once a bundle is written into it.
use siratis_nmbl_bootloader.Prelude.{
  ℕ, ◌+◌, ◌≡◌, sym, subst, ◌∙◌, true, false, Option, some, List, [], ◌∷◌, Bytes, bytes_eq, Outcome,
  ok, err, codes,
}
use siratis_nmbl_bootloader.Update.Manifest.{Error, Entry, Slot}
use siratis_nmbl_bootloader.Update.Bundle.{Item, Node, Artifact, ValidatedBundle, plain}
use siratis_nmbl_bootloader.Update.Disk.{Root, World, lift, inspect, put_stage}
use siratis_nmbl_bootloader.Update.Staging.{
  create_file, fill_file, write_staged, copy_open, stage_artifact, stage_artifacts, stage_bundle,
  cleaned, stage_or_clean,
}
use siratis_nmbl_bootloader.Update.Steps.{
  Post, Ensures, Ensures-then, lift-Ensures, Ensures-look, call-Ensures,
}
use siratis_nmbl_bootloader.Update.Entries.{
  lookup_node, is_folder, place_same, creatable-ok, in_folder-IsFolder, lookup_node_same,
  lookup_node_other, name_differs,
}

abbrev AnyRoot : Root → Type 0
AnyRoot r = Unit

module _ (s : Slot) where
  -- The staging directory has this under this name.
  abbrev pub Has : Bytes → Item → Root → Type 0
  Has name item r = lookup_node name (r.stage s) ≡ some item

  abbrev IsOpen : Root → Type 0
  IsOpen r = is_folder (r.stage s) ≡ true

  stage_put :
      (Q : Option Node → Type 0) (found : Option Node) (root : Root)
      → Q found
      → Q ((put_stage s found root).stage s)
  stage_put Q found root h = subst Q (sym (place_same s found root.stage)) h

  create_file-IsOpen : (name : Bytes) → Ensures AnyRoot (create_file s name) (λ a. IsOpen) AnyRoot
  create_file-IsOpen name = Ensures-look (λ root.
      Ensures-then {Q = λ a. IsOpen}
        (lift-Ensures _ (λ a made r h. rw (h.0) ((creatable-ok name (root.stage s) made).0))
          (λ r h. tt))
        (λ _.
          call-Ensures IsOpen _ _ IsOpen AnyRoot
            (λ r h. stage_put (λ n. is_folder n ≡ true) _ r (in_folder-IsFolder _ (r.stage s) h))
            (λ n r h. tt) (λ r h. tt)))

  fill_file-Has :
      (name bytes : Bytes)
      → Ensures IsOpen (fill_file s name bytes) (λ a. Has name (plain bytes)) AnyRoot
  fill_file-Has name bytes =
      call-Ensures IsOpen _ _ (Has name (plain bytes)) AnyRoot
        (λ r h.
          stage_put (λ n. lookup_node name n ≡ some (plain bytes)) _ r
            (lookup_node_same name (plain bytes) (r.stage s) h))
        (λ n r h. tt) (λ r h. tt)

  create_file-Has :
      (name n : Bytes) (item : Item)
      → Ensures
          (Has n item)
          (create_file s name)
          (λ a r. Has n item r × (bytes_eq name n ≡ false))
          AnyRoot
  create_file-Has name n item = Ensures-look (λ root.
      Ensures-then {Q = λ a r. Has n item r × (bytes_eq name n ≡ false)}
        (lift-Ensures _
          (λ a made r h. (
            h.1,
            name_differs name n item (r.stage s)
                (rw (h.0) ((creatable-ok name (root.stage s) made).1)) (h.1),
          ))
          (λ r h. tt))
        (λ _.
          call-Ensures _ _ _ _ AnyRoot
            (λ r h. (
              stage_put (λ k. lookup_node n k ≡ some item) _ r
                  (lookup_node_other name n _ (r.stage s) (h.1) ∙ h.0),
              h.1,
            ))
            (λ k r h. tt) (λ r h. tt)))

  fill_file-Has_other :
      (name n bytes : Bytes) (item : Item)
      → Ensures
          (λ r. Has n item r × (bytes_eq name n ≡ false))
          (fill_file s name bytes)
          (λ a. Has n item)
          AnyRoot
  fill_file-Has_other name n bytes item =
      call-Ensures _ _ _ _ AnyRoot
        (λ r h.
          stage_put (λ k. lookup_node n k ≡ some item) _ r
            (lookup_node_other name n _ (r.stage s) (h.1) ∙ h.0))
        (λ k r h. tt) (λ r h. tt)

  inspect-Ensures : (Q : Root → Type 0) → Ensures Q inspect (λ a. Q) AnyRoot
  inspect-Ensures Q = call-Ensures Q _ _ Q AnyRoot (λ r h. h) (λ n r h. tt) (λ r h. tt)

  lift-Retains :
      {A : Type 0} (Q : Root → Type 0) (outcome : Outcome Error A)
      → Ensures Q (lift outcome) (λ a. Q) AnyRoot
  lift-Retains Q outcome = lift-Ensures outcome (λ a made r h. h) (λ r h. tt)

  write_staged-Has :
      (name bytes : Bytes)
      → Ensures AnyRoot (write_staged s name bytes) (λ a. Has name (plain bytes)) AnyRoot
  unfolding write_staged
  write_staged-Has name bytes =
      Ensures-then (create_file-IsOpen name)
        (λ _. Ensures-then (fill_file-Has name bytes) (λ _. inspect-Ensures _))

  module _ (n : Bytes) (item : Item) where
    write_staged-Retains :
        (name bytes : Bytes)
        → Ensures (Has n item) (write_staged s name bytes) (λ a. Has n item) AnyRoot
    unfolding write_staged
    write_staged-Retains name bytes =
        Ensures-then (create_file-Has name n item)
          (λ _. Ensures-then (fill_file-Has_other name n bytes item) (λ _. inspect-Ensures _))

    copy_open-Retains :
        (name source : Bytes) (expected : ℕ)
        → Ensures (Has n item) (copy_open s name source expected) (λ a. Has n item) AnyRoot
    unfolding copy_open
    copy_open-Retains name source expected = Ensures-then (create_file-Has name n item) (λ _.
        Ensures-then (fill_file-Has_other name n source item)
          (λ _. Ensures-then (lift-Retains _ _) (λ _. inspect-Ensures _)))

    stage_artifact-Retains :
        (entries : List Entry) (fail_after : Option ℕ) (written : ℕ) (artifact : Artifact)
        → Ensures
            (Has n item)
            (stage_artifact s entries fail_after written artifact)
            (λ a. Has n item)
            AnyRoot
    unfolding stage_artifact
    stage_artifact-Retains entries fail_after written artifact =
        Ensures-then (lift-Retains _ _) (λ _. Ensures-then (lift-Retains _ _) (λ entry.
          Ensures-then (inspect-Ensures _) (λ _.
            Ensures-then (inspect-Ensures _)
              (λ _. Ensures-then (copy_open-Retains _ _ _) (λ _. copy_open-Retains _ _ _)))))

    stage_artifacts-Retains :
        (entries : List Entry) (fail_after : Option ℕ) (written : ℕ) (artifacts : List Artifact)
        → Ensures
            (Has n item)
            (stage_artifacts s entries fail_after written artifacts)
            (λ a. Has n item)
            AnyRoot
    unfolding stage_artifacts
    stage_artifacts-Retains entries fail_after written [] = lift-Retains _ (ok tt)
    stage_artifacts-Retains entries fail_after written (artifact ∷ artifacts) =
        Ensures-then (stage_artifact-Retains entries fail_after written artifact)
          (λ _. stage_artifacts-Retains entries fail_after (written + 1) artifacts)

  stage_bundle-Has :
      (b : ValidatedBundle) (fail_after : Option ℕ)
      → Ensures AnyRoot
          (stage_bundle s b fail_after)
          (λ a. Has (codes "manifest.json") (plain b.manifest_bytes))
          AnyRoot
  unfolding stage_bundle
  stage_bundle-Has b fail_after =
      Ensures-then (write_staged-Has (codes "manifest.json") b.manifest_bytes) (λ _.
        Ensures-then (write_staged-Retains _ _ (codes "manifest.json.sig") b.manifest_signature)
          (λ _. stage_artifacts-Retains _ _ b.manifest.files fail_after 0 b.artifacts))

  Post-cleaned :
      (Q : Root → Type 0) (result : Outcome Error (Unit {0}) × World)
      → Post (λ a. Q) AnyRoot result
      → Post (λ a. Q) AnyRoot (cleaned s result)
  Post-cleaned Q (ok _, w) h = h
  Post-cleaned Q (err why, w) h = tt

  pub stage_or_clean-Has :
      (b : ValidatedBundle) (fail_after : Option ℕ)
      → Ensures AnyRoot
          (stage_or_clean s b fail_after)
          (λ a. Has (codes "manifest.json") (plain b.manifest_bytes))
          AnyRoot
  unfolding stage_or_clean
  stage_or_clean-Has b fail_after = record {
    run = λ w h.
        Post-cleaned _ (stage_bundle s b fail_after w) ((stage_bundle-Has b fail_after).run w h);
  }

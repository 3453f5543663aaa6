-- ===== src/Update/Staging.antt =====
-- nmbl-boot-update/src/transaction.rs: writing a bundle into the staging directory of a slot.
use siratis_nmbl_bootloader.Prelude.{
  ℕ, ◌+◌, Option, none, some, List, [], ◌∷◌, ◌==◌, if◌then◌else◌, is_some, length, get_elem?, take,
  drop, Bytes, bytes_eq, Outcome, ok, err, codes,
}
use siratis_nmbl_bootloader.Update.Manifest.{
  Error, invalid, io, Entry, Slot, short_copy, no_artifact,
}
use siratis_nmbl_bootloader.Update.Bundle.{
  Item, plain, Files, lookup, Node, folder, not_folder, Artifact, ValidatedBundle,
}
use siratis_nmbl_bootloader.Update.Disk.{
  Root, World, M, ◌>>=◌, ◌>>◌, lift, pure, look, call, atomic, inspect, put_stage,
}

-- `put_file` writes over what has the name.
unfoldable pub put_file : Bytes → Item → Files → Files
put_file name item [] = (name, item) ∷ []
put_file name item ((n, old) ∷ files) =
    let rest = put_file name item files in
    if bytes_eq n name then (n, item) ∷ files else (n, old) ∷ rest

abbrev pub in_folder : (Files → Files) → Option Node → Option Node
in_folder change none = none
in_folder change (some not_folder) = some not_folder
in_folder change (some (folder files)) = some (folder (change files))

abbrev pub in_stage : Slot → (Files → Files) → Root → Root
in_stage s change root = put_stage s (in_folder change (root.stage s)) root

-- `create_new(true)`
abbrev pub creatable : Bytes → Option Node → Outcome Error (Unit {0})
creatable name none = err io
creatable name (some not_folder) = err io
creatable name (some (folder files)) = if is_some (lookup name files) then err io else ok tt

abbrev pub create_file : Slot → Bytes → M (Unit {0})
create_file s name = do
  root ← look
  lift (creatable name (root.stage s))
  atomic (in_stage s (put_file name (plain [])))

abbrev pub fill_file : Slot → Bytes → Bytes → M (Unit {0})
fill_file s name bytes =
    call (in_stage s (put_file name (plain bytes)))
      (λ n. in_stage s (put_file name (plain (take n bytes))))

-- `write_bytes` into the staging directory.
unfoldable pub write_staged : Slot → Bytes → Bytes → M (Unit {0})
write_staged s name bytes = do create_file s name; fill_file s name bytes; inspect

unfoldable pub copy_open : Slot → Bytes → Bytes → ℕ → M (Unit {0})
copy_open s name source expected = do
  create_file s name
  fill_file s name source
  lift (if length source == expected then ok tt else err (invalid short_copy))
  inspect

abbrev entry_at : Option Entry → Outcome Error Entry
entry_at none = err (invalid no_artifact)
entry_at (some entry) = ok entry

abbrev injected : Option ℕ → ℕ → Outcome Error (Unit {0})
injected none written = ok tt
injected (some n) written = if n == written then err io else ok tt

-- One turn of the loop over the artifacts; both files are rewound first.
unfoldable pub stage_artifact : Slot → List Entry → Option ℕ → ℕ → Artifact → M (Unit {0})
stage_artifact s entries fail_after written artifact = do
  lift (injected fail_after written)
  entry ← lift (entry_at (get_elem? entries artifact.entry_index))
  inspect
  inspect
  copy_open s entry.destination artifact.payload artifact.payload_len
  copy_open s entry.signature artifact.signature artifact.signature_len

unfoldable pub stage_artifacts : Slot → List Entry → Option ℕ → ℕ → List Artifact → M (Unit {0})
stage_artifacts s entries fail_after written [] = pure tt
stage_artifacts s entries fail_after written (artifact ∷ artifacts) =
    stage_artifact s entries fail_after written artifact
    >> stage_artifacts s entries fail_after (written + 1) artifacts

unfoldable pub stage_bundle : Slot → ValidatedBundle → Option ℕ → M (Unit {0})
stage_bundle s b fail_after = do
  write_staged s (codes "manifest.json") b.manifest_bytes
  write_staged s (codes "manifest.json.sig") b.manifest_signature
  stage_artifacts s b.manifest.files fail_after 0 b.artifacts

-- `let _ = fs::remove_dir_all(&stage)` before the error is returned.
abbrev pub remove_stage : Slot → M (Unit {0})
remove_stage s =
    call (put_stage s none)
      (λ n root. put_stage s (in_folder (λ files. drop n files) (root.stage s)) root)

abbrev pub cleaned : Slot → Outcome Error (Unit {0}) × World → Outcome Error (Unit {0}) × World
cleaned s (ok _, w) = (ok tt, w)
cleaned s (err why, w) = (err why, (remove_stage s w).1)

unfoldable pub stage_or_clean : Slot → ValidatedBundle → Option ℕ → M (Unit {0})
stage_or_clean s b fail_after w = cleaned s (stage_bundle s b fail_after w)

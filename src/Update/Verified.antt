-- ===== src/Update/Verified.antt =====
-- What a directory holds whose bundle is accepted.
use siratis_nmbl_bootloader.Prelude.{
  ℕ, ◌+◌, ◌≡◌, refl, ap, subst, ◌∙◌, ◌≢◌, inl, inr, true, Option, none, some, List, [], ◌∷◌, arith,
  Option-cases, length, Bytes, bytes_eq, bytes_eq→eq, ok, codes, Outcome-cases,
}
use siratis_nmbl_bootloader.Update.Manifest.{
  Entry, Manifest, Libraries, validate_shape, parse_manifest,
}
use siratis_nmbl_bootloader.Update.Bundle.{
  Item, Files, lookup, Artifact, ValidatedBundle, domain_for, or_overflow, allocation, grown,
  read_limited, ascii_lower, verify_reader, verify_artifact, read_artifact, read_artifacts,
  bundle_files, plain, special,
}
use siratis_nmbl_bootloader.Hex.{hex_lower}
use siratis_nmbl_bootloader.Update.Shape.{IsShaped, validate_shape_iff}

module _ (lib : Libraries) (files : Files) (public_bytes : Bytes) where
  -- The two files of an entry, and the checks that they pass.
  pub record IsVerified (entry : Entry) : Type 0 where
    pub payload : Bytes
    pub signature : Bytes
    pub domain : Bytes
    pub payload_there : lookup entry.payload files ≡ some (plain payload)
    pub signature_there : lookup entry.signature files ≡ some (plain signature)
    pub digest_matches : hex_lower (lib.sha512 payload) ≡ ascii_lower entry.sha512
    pub domain_known : domain_for entry.domain ≡ some domain
    pub verifies : verify_reader lib payload public_bytes domain signature ≡ ok tt

  abbrev pub AreVerified : List Entry → Type 0
  AreVerified [] = Unit
  AreVerified (e ∷ entries) = IsVerified e × AreVerified entries

  verify_artifact-domain :
      (payload signature : Bytes) (entry : Entry)
      → verify_artifact lib payload entry public_bytes signature ≡ ok tt
      → (domain : Bytes) × (domain_for entry.domain ≡ some domain)
        × (bytes_eq (hex_lower (lib.sha512 payload)) (ascii_lower entry.sha512) ≡ true)
        × (verify_reader lib payload public_bytes domain signature ≡ ok tt)
  unfolding verify_artifact
  verify_artifact-domain payload signature entry h = elim (Option-cases (domain_for entry.domain)) [
    | inl absent ↦ absurd (ground arith)
    | inr (domain, known) ↦ (domain, known, ground arith, ground arith)
  ]

  read_artifact-IsVerified :
      (index : ℕ) (entry : Entry) (artifact : Artifact)
      → read_artifact lib files public_bytes index entry ≡ ok artifact
      → IsVerified entry
  unfolding read_artifact
  read_artifact-IsVerified index entry artifact h =
      go (lookup entry.payload files) refl (lookup entry.signature files) refl
    where
      go :
          (p : Option Item)
          → lookup entry.payload files ≡ p
          → (s : Option Item) → lookup entry.signature files ≡ s
          → IsVerified entry
      go none is s there = absurd (ground arith)
      go (some item) is none there = absurd (ground arith)
      go (some special) is (some item) there = absurd (ground arith)
      go (some (plain p)) is (some special) there = absurd (ground arith)
      go (some (plain p)) is (some (plain s)) there =
          let v : verify_artifact lib p entry public_bytes s ≡ ok tt = ground arith in
          let (domain, known, digest, verified) = verify_artifact-domain p s entry v in
          record {
            payload = p;
            signature = s;
            domain = domain;
            payload_there = is;
            signature_there = there;
            digest_matches = bytes_eq→eq _ _ digest;
            domain_known = known;
            verifies = verified;
          }

  read_artifacts-AreVerified :
      (entries : List Entry) (index allocated : ℕ) (read : List Artifact × ℕ)
      → read_artifacts lib files public_bytes index entries allocated ≡ ok read
      → AreVerified entries
  unfolding read_artifacts
  read_artifacts-AreVerified [] index allocated read h = tt
  read_artifacts-AreVerified (e ∷ entries) index allocated read h =
      elim (Outcome-cases (read_artifact lib files public_bytes index e)) [
        | inr (why, failed) ↦ absurd (ground arith)
        | inl (artifact, found) ↦ elim (Outcome-cases (or_overflow (grown allocated artifact))) [
          | inr (why, failed) ↦ absurd (ground arith)
          | inl (n, fits) ↦
              elim (Outcome-cases (read_artifacts lib files public_bytes (index + 1) entries n)) [
                | inr (why, failed) ↦ absurd (ground arith)
                | inl (tail, found') ↦ (
                  read_artifact-IsVerified index e artifact found,
                  read_artifacts-AreVerified entries (index + 1) n tail found',
                )
              ]
        ]
      ]

-- A directory whose files are what its signed manifest says.
pub record IsBootSet (lib : Libraries) (files : Files) (public_key : Option Bytes)
    (b : ValidatedBundle) : Type 0 where
  pub public_bytes : Bytes
  pub key : public_key ≡ some public_bytes
  pub manifest_there : lookup (codes "manifest.json") files ≡ some (plain b.manifest_bytes)
  pub signature_there : lookup (codes "manifest.json.sig") files ≡ some (plain b.manifest_signature)
  pub manifest_verifies :
      verify_reader lib b.manifest_bytes public_bytes
        (codes "nmbl:boot-set-manifest:v1")
        b.manifest_signature
      ≡ ok tt
  pub manifest_reads : lib.read_json b.manifest_bytes ≡ some b.manifest
  pub shape : IsShaped lib b.manifest
  pub verified : AreVerified lib files public_bytes b.manifest.files

read_limited-there :
    (files : Files) (name : Bytes) (limit : ℕ) (bytes : Bytes)
    → read_limited files name limit ≡ ok bytes
    → lookup name files ≡ some (plain bytes)
unfolding read_limited
read_limited-there files name limit bytes h = go (lookup name files) refl
  where
    go : (item : Option Item) → lookup name files ≡ item → lookup name files ≡ some (plain bytes)
    go none is = absurd (ground arith)
    go (some special) is = absurd (ground arith)
    go (some (plain found)) is = is ∙ ground arith

no_key :
    (lib : Libraries) (files : Files) (b : ValidatedBundle) → bundle_files lib files none ≢ ok b
unfolding bundle_files
no_key lib files b h = ground arith

parse_manifest-IsShaped :
    (lib : Libraries) (bytes : Bytes) (manifest : Manifest)
    → parse_manifest lib bytes ≡ ok manifest
    → (lib.read_json bytes ≡ some manifest) × IsShaped lib manifest
unfolding parse_manifest
parse_manifest-IsShaped lib bytes manifest h = go (lib.read_json bytes) refl
  where
    go :
        (read : Option Manifest)
        → lib.read_json bytes ≡ read
        → (lib.read_json bytes ≡ some manifest) × IsShaped lib manifest
    go none is = absurd (ground arith)
    go (some found) is =
        let same : found ≡ manifest = ground arith in
        let shape : validate_shape lib found ≡ ok tt = ground arith in
        (is ∙ ap some same, subst (IsShaped lib) same ((validate_shape_iff lib found).0 shape))

-- The steps of a successful validation, on the bundle that it gives.
module _ (lib : Libraries) (files : Files) (key : Bytes) (b : ValidatedBundle)
    (accepted : bundle_files lib files (some key) ≡ ok b) where
  manifest-read : read_limited files (codes "manifest.json") 1048576 ≡ ok b.manifest_bytes
  unfolding bundle_files
  manifest-read = ground arith

  signature-read : read_limited files (codes "manifest.json.sig") 65536 ≡ ok b.manifest_signature
  unfolding bundle_files
  signature-read = ground arith

  manifest-verified :
      verify_reader lib b.manifest_bytes key
        (codes "nmbl:boot-set-manifest:v1")
        b.manifest_signature
      ≡ ok tt
  unfolding bundle_files domain_for
  manifest-verified = ground arith

  manifest-parsed : parse_manifest lib b.manifest_bytes ≡ ok b.manifest
  unfolding bundle_files
  manifest-parsed = ground arith

  artifacts-read :
      read_artifacts lib files key 0 b.manifest.files
        (allocation (length b.manifest_bytes) + allocation (length b.manifest_signature))
      ≡ ok (b.artifacts, b.allocated_bytes)
  unfolding bundle_files
  artifacts-read = ground arith

-- Where a directory is accepted as a bundle: the public key is there; the manifest verifies with it in
-- the manifests' domain, is the bundle's and is shaped; and each file that it names is in the directory
-- with its signature, has the digest written there and verifies with the key in its role's domain.
pub bundle_files-IsBootSet :
    (lib : Libraries) (files : Files) (public_key : Option Bytes) (b : ValidatedBundle)
    → bundle_files lib files public_key ≡ ok b
    → IsBootSet lib files public_key b
bundle_files-IsBootSet lib files none b h = absurd (no_key lib files b h)
bundle_files-IsBootSet lib files (some key) b h =
    let (reads, shape) =
      parse_manifest-IsShaped lib b.manifest_bytes b.manifest (manifest-parsed lib files key b h) in
    record {
      public_bytes = key;
      key = refl;
      manifest_there = read_limited-there files _ 1048576 _ (manifest-read lib files key b h);
      signature_there = read_limited-there files _ 65536 _ (signature-read lib files key b h);
      manifest_verifies = manifest-verified lib files key b h;
      manifest_reads = reads;
      shape = shape;
      verified =
          read_artifacts-AreVerified lib files key b.manifest.files 0 _ _
            (artifacts-read lib files key b h);
    }

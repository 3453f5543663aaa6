-- ===== src/Update/Tests.antt =====
-- The update modules at a concrete boot set. The toy hash keeps the first bytes, and the toy check of a
-- signature wants the key's first byte in front of it.
use siratis_nmbl_bootloader.Prelude.{
  ◌≡◌, refl, ◌↔◌, true, none, some, List, [], ◌∷◌, ◌++◌, map, ◌==◌, if◌then◌else◌, length, get_or,
  take, replicate, Bytes, bytes_eq, Outcome, ok, err, codes,
}
use siratis_nmbl_bootloader.Update.Manifest.{
  Role, Error, Entry, Manifest, Component, Libraries, role_domain, expected_destination, is_digest,
  dot_sig, required_roles, check_required, validate_relative, check_entry, check_entries,
  validate_shape, parse_manifest, manifest_slot, normal, slot_a, slot_b,
}
use siratis_nmbl_bootloader.Update.Bundle.{
  Files, lookup, ValidatedBundle, domain_for, allocation, read_limited, ascii_lower, verify_reader,
  verify_artifact, read_artifact, read_artifacts, bundle_files, plain, folder,
}
use siratis_nmbl_bootloader.Update.Disk.{Fate, Root, World, ◌>>=◌, lift, look, call, done, torn}
use siratis_nmbl_bootloader.Update.Slots.{
  Limits, selector_text, selected, read_active, write_selector, sum_blocks, remove_confined,
  preflight,
}
use siratis_nmbl_bootloader.Update.Install.{
  Installed, read_validated, publish, replace, install, activated,
}
use siratis_nmbl_bootloader.Update.Staging.{
  put_file, write_staged, copy_open, stage_artifact, stage_artifacts, stage_bundle, stage_or_clean,
}
use siratis_nmbl_bootloader.Update.Survival.{Survival, Completed}
use siratis_nmbl_bootloader.Update.Ending.{install-Survival, install-Completed}
use siratis_nmbl_bootloader.Update.Shape.{IsShaped, validate_shape_iff}
use siratis_nmbl_bootloader.Update.Verified.{IsBootSet, bundle_files-IsBootSet}
use siratis_nmbl_bootloader.Hex.{hex_lower}
use siratis_nmbl_bootloader.Sig.Alg.{ml_dsa65, sha512}
use siratis_nmbl_bootloader.Sig.Wire.{decode, encode}
use siratis_nmbl_bootloader.Sig.Sidecar.{parse}
use siratis_nmbl_bootloader.Sig.Verify.{
  Crypto, domain_tag, hash_verify_digest, parse_key, order_by_hint, try_keys, verify_digest,
}

abbrev toy_crypto : Crypto
toy_crypto = record {
  sha256 = λ b. take 32 (b ++ replicate 32 0);
  well_formed = λ alg b. true;
  hash_verify = λ alg key digest sig ctx. get_or key 0 0 == get_or sig 0 1;
}

abbrev toy_key : Bytes
toy_key = 9 ∷ replicate 1951 0

toy_sidecar : Bytes → Bytes
unfolding encode
toy_sidecar domain =
    encode
      (record { alg = ml_dsa65; hash = sha512; key_id = 0; domain = domain_tag toy_crypto domain })
    ++ replicate 3309 9

abbrev toy_entry : Role → Entry
toy_entry r = record {
  role = r;
  destination = expected_destination r;
  payload = expected_destination r;
  signature = dot_sig (expected_destination r);
  domain = role_domain r;
  sha512 = replicate 128 b'0';
}

abbrev toy_manifest : Manifest
toy_manifest = record {
  version = 1;
  set_id = replicate 128 b'a';
  target_slot = codes "B";
  files = map toy_entry required_roles;
}

abbrev toy_components : Bytes → List Component
toy_components path = normal ∷ []

abbrev toy : Libraries
toy = record {
  crypto = toy_crypto;
  read_json = λ b. if bytes_eq b (1 ∷ []) then some toy_manifest else none;
  is_absolute = λ path. get_or path 0 0 == b'/';
  components = toy_components;
  sha512 = λ b. replicate 64 0;
}

abbrev domain_of : Role → Bytes
domain_of r = elim (domain_for (role_domain r)) [ none ↦ [] | some d ↦ d ]

abbrev toy_files : List Role → Files
toy_files [] = []
toy_files (r ∷ roles) =
    (expected_destination r, plain (7 ∷ []))
    ∷ (dot_sig (expected_destination r), plain (toy_sidecar (domain_of r)))
    ∷ toy_files roles

toy_set : Files
unfolding toy_sidecar expected_destination role_domain domain_for
toy_set =
    (codes "manifest.json", plain (1 ∷ []))
    ∷ (codes "manifest.json.sig", plain (toy_sidecar (codes "nmbl:boot-set-manifest:v1")))
    ∷ toy_files required_roles

abbrev before : Root
before = record {
  slot = λ s. some (folder []);
  stage = λ s. none;
  selector = some (selector_text slot_a);
  selector_new = some [];
}

abbrev roomy : Limits
roomy = record {
  available_bytes = some 1000000;
  fail_after_files = none;
  free_blocks = 0;
  fragment_size = 0;
  blocks = length;
}

abbrev start : World
start = record { root = before; fates = replicate 200 done }

run : Outcome Error Installed × World
unfolding install toy_set
run = install toy (some toy_key) (some (folder toy_set)) roomy start

accepts : run.0 ≡ ok (activated slot_b)
unfolding run ◌>>=◌ read_validated call lift bundle_files read_limited lookup verify_reader parse
    decode parse_key verify_digest try_keys order_by_hint hash_verify_digest parse_manifest
    validate_shape hex_lower encode allocation ascii_lower domain_for read_artifact read_artifacts
    verify_artifact look install publish replace check_entries check_entry check_required
    expected_destination is_digest manifest_slot role_domain validate_relative preflight read_active
    remove_confined sum_blocks write_selector copy_open put_file stage_artifact stage_artifacts
    stage_bundle stage_or_clean write_staged toy_set toy_sidecar
accepts = refl

reads_a : selected before.selector ≡ ok (some slot_a)
reads_a = refl

-- The machine stops in the middle of the ninth call.
abbrev short : List Fate
short = done ∷ done ∷ done ∷ done ∷ done ∷ done ∷ done ∷ done ∷ torn 4 ∷ []

install-Survival_example :
    Survival toy
      (some toy_key)
      (some (folder toy_set))
      before
      (some slot_a)
      (install toy
        (some toy_key)
        (some (folder toy_set))
        roomy
        (record { root = before; fates = short })).1.root
install-Survival_example =
    install-Survival toy (some toy_key) (some (folder toy_set)) before (some slot_a) reads_a roomy
      short

run-installs :
    (install toy
      (some toy_key)
      (some (folder toy_set))
      roomy
      (record { root = before; fates = replicate 200 done })).0
    ≡ ok (activated slot_b)
unfolding run
run-installs = accepts

install-Completed_example :
    Completed toy
      (some toy_key)
      (some (folder toy_set))
      before
      (some slot_a)
      (activated slot_b)
      (install toy
        (some toy_key)
        (some (folder toy_set))
        roomy
        (record { root = before; fates = replicate 200 done })).1.root
install-Completed_example =
    install-Completed toy (some toy_key) (some (folder toy_set)) before (some slot_a) reads_a roomy
      (replicate 200 done) (activated slot_b) run-installs

validate_shape_iff_example : (validate_shape toy toy_manifest ≡ ok tt) ↔ IsShaped toy toy_manifest
validate_shape_iff_example = validate_shape_iff toy toy_manifest

-- The bundle that the validation gives.
abbrev from_result : Outcome Error ValidatedBundle → ValidatedBundle
from_result (ok b) = b
from_result (err why) = record {
  manifest = toy_manifest;
  manifest_bytes = [];
  manifest_signature = [];
  artifacts = [];
  allocated_bytes = 0;
}

read_bundle : ValidatedBundle
read_bundle = from_result (bundle_files toy toy_set (some toy_key))

reads_set : bundle_files toy toy_set (some toy_key) ≡ ok read_bundle
unfolding read_bundle ◌>>=◌ read_validated call lift bundle_files read_limited lookup verify_reader
    parse decode parse_key verify_digest try_keys order_by_hint hash_verify_digest parse_manifest
    validate_shape hex_lower encode allocation ascii_lower domain_for read_artifact read_artifacts
    verify_artifact look install publish replace check_entries check_entry check_required
    expected_destination is_digest manifest_slot role_domain validate_relative preflight read_active
    remove_confined sum_blocks write_selector copy_open put_file stage_artifact stage_artifacts
    stage_bundle stage_or_clean write_staged toy_set toy_sidecar
reads_set = refl

bundle_files-IsBootSet_example : IsBootSet toy toy_set (some toy_key) read_bundle
bundle_files-IsBootSet_example =
    bundle_files-IsBootSet toy toy_set (some toy_key) read_bundle reads_set

-- ===== src/Update/Bundle.antt =====
-- nmbl-boot-update/src/validate.rs, with the domains and the verification of nmbl-host-tools
-- (domain.rs, verify.rs). A directory is its entries; a bundle holds the bytes that its open files
-- pin. That a call of the file system fails on a file that is there is left to Install, where a
-- whole validation may fail.
use siratis_nmbl_bootloader.Prelude.{
  ℕ, ◌+◌, ◌*◌, ◌/◌, ◌&&◌, Option, none, some, List, [], ◌∷◌, leb, if◌then◌else◌, u64_max,
  saturating_add, length, Bytes, bytes_eq, Outcome, ok, err, ◌>>=◌, ◌>>◌, codes,
}
use siratis_nmbl_bootloader.Hex.{hex_lower}
use siratis_nmbl_bootloader.Sig.Sidecar.{SigSidecar, parse}
use siratis_nmbl_bootloader.Sig.Verify.{Verdict, domain_priority_file, parse_key, verify_digest}
use siratis_nmbl_bootloader.Update.Manifest.{
  Error, invalid, io, signature_failed, Entry, Manifest, Libraries, demand, parse_manifest,
  no_manifest_domain, size_overflow, too_large, not_a_file, digest_mismatch, unknown_domain,
}

-- What stands in a directory: a file, or anything else.
pub data Item : Type 0 where
  plain : Bytes → Item
  special : Item

abbrev pub Files : Type 0
Files = List (Bytes × Item)

unfoldable pub lookup : Bytes → Files → Option Item
lookup name [] = none
lookup name ((n, item) ∷ files) =
    let rest = lookup name files in if bytes_eq n name then some item else rest

-- What a path names: a plain directory or something else.
pub data Node : Type 0 where
  folder : Files → Node
  not_folder : Node

pub record Artifact : Type 0 where
  pub entry_index : ℕ
  pub payload : Bytes
  pub signature : Bytes
  pub payload_len : ℕ
  pub signature_len : ℕ

pub record ValidatedBundle : Type 0 where
  pub manifest : Manifest
  pub manifest_bytes : Bytes
  pub manifest_signature : Bytes
  pub artifacts : List Artifact
  pub allocated_bytes : ℕ

-- `ROLES` of domain.rs: the token, and the bytes that sig/verify.rs fixes for it.
abbrev domain_table : List (Bytes × Bytes)
domain_table =
    (codes "gen-kernel", codes "nmbl:gen-kernel:v1")
    ∷ (codes "gen-initrd", codes "nmbl:gen-initrd:v1")
    ∷ (codes "driver-image", codes "nmbl:driver-image:v1")
    ∷ (codes "staged-fragment", codes "nmbl:staged-fragment:v1")
    ∷ (codes "priority-file", domain_priority_file)
    ∷ (codes "rescue-sfs", codes "nmbl:rescue-sfs:v1")
    ∷ (codes "boot-config", codes "nmbl:boot-config:v1")
    ∷ (codes "network-stage", codes "nmbl:network-stage:v1")
    ∷ (codes "rescue-tools", codes "nmbl:rescue-tools:v1")
    ∷ (codes "generation-image", codes "nmbl:generation-image:v1")
    ∷ (codes "boot-set-manifest", codes "nmbl:boot-set-manifest:v1")
    ∷ (codes "boot-set-artifact", codes "nmbl:boot-set-artifact:v1")
    ∷ []

abbrev find_domain : Bytes → List (Bytes × Bytes) → Option Bytes
find_domain token [] = none
find_domain token ((t, domain) ∷ table) =
    let rest = find_domain token table in if bytes_eq t token then some domain else rest

unfoldable pub domain_for : Bytes → Option Bytes
domain_for token = find_domain token domain_table

abbrev pub checked_add : ℕ → ℕ → Option ℕ
checked_add a b = if leb (a + b) u64_max then some (a + b) else none

abbrev pub or_overflow : Option ℕ → Outcome Error ℕ
or_overflow none = err (invalid size_overflow)
or_overflow (some n) = ok n

unfoldable pub allocation : ℕ → ℕ
allocation len = saturating_add u64_max len 4095 / 4096 * 4096

abbrev and_add : Option ℕ → ℕ → Option ℕ
and_add none b = none
and_add (some a) b = checked_add a b

abbrev pub grown : ℕ → Artifact → Option ℕ
grown allocated artifact =
    and_add (checked_add allocated (allocation artifact.payload_len))
      (allocation artifact.signature_len)

abbrev pub opened : Option Item → Outcome Error Item
opened none = err io
opened (some item) = ok item

-- `reject_non_file`, and the bytes behind it.
abbrev pub reject_non_file : Bytes → Item → Outcome Error Bytes
reject_non_file name (plain bytes) = ok bytes
reject_non_file name special = err (invalid (not_a_file name))

abbrev pub read_open : Bytes → ℕ → Outcome Error Bytes
read_open bytes limit =
    if leb (length bytes) limit then ok bytes else err (invalid (too_large limit))

unfoldable pub read_limited : Files → Bytes → ℕ → Outcome Error Bytes
read_limited files name limit = do
  item ← opened (lookup name files)
  bytes ← reject_non_file name item
  read_open bytes limit

unfoldable pub ascii_lower : Bytes → Bytes
ascii_lower [] = []
ascii_lower (c ∷ text) = (if leb b'A' c && leb c b'Z' then c + 32 else c) ∷ ascii_lower text

-- `map_err(|e| Error::Signature(…))` and the like.
abbrev pub signed {ℓ} : {A : Type ℓ} → Verdict A → Outcome Error A
signed (ok a) = ok a
signed (err why) = err signature_failed

abbrev sidecar_of : Bytes → Outcome Error SigSidecar
sidecar_of bytes = elim (parse bytes) [ ok sidecar ↦ ok sidecar | err why ↦ err signature_failed ]

abbrev known_domain : Bytes → Option Bytes → Outcome Error Bytes
known_domain name none = err (invalid (unknown_domain name))
known_domain name (some domain) = ok domain

abbrev pub manifest_domain : Option Bytes → Outcome Error Bytes
manifest_domain none = err (invalid no_manifest_domain)
manifest_domain (some domain) = ok domain

abbrev pub key_read : Option Bytes → Outcome Error Bytes
key_read none = err io
key_read (some bytes) = ok bytes

module _ (lib : Libraries) where
  unfoldable pub verify_reader : Bytes → Bytes → Bytes → Bytes → Outcome Error (Unit {0})
  verify_reader input public_bytes domain sidecar_bytes = do
    sidecar ← sidecar_of sidecar_bytes
    key ← signed (parse_key lib.crypto public_bytes sidecar.head.alg)
    signed (verify_digest lib.crypto (lib.sha512 input) domain sidecar (key ∷ []))

  unfoldable pub verify_artifact : Bytes → Entry → Bytes → Bytes → Outcome Error (Unit {0})
  verify_artifact payload entry public_bytes signature = do
    demand (bytes_eq (hex_lower (lib.sha512 payload)) (ascii_lower entry.sha512))
        (digest_mismatch entry.payload)
    domain ← known_domain entry.domain (domain_for entry.domain)
    verify_reader payload public_bytes domain signature

  -- One turn of the loop over the manifest's files, up to the sizes.
  unfoldable pub read_artifact : Files → Bytes → ℕ → Entry → Outcome Error Artifact
  read_artifact files public_bytes index entry = do
    payload_item ← opened (lookup entry.payload files)
    signature_item ← opened (lookup entry.signature files)
    payload ← reject_non_file entry.payload payload_item
    signature ← reject_non_file entry.signature signature_item
    signature_bytes ← read_open signature 65536
    verify_artifact payload entry public_bytes signature_bytes
    ok (record {
      entry_index = index;
      payload = payload;
      signature = signature;
      payload_len = length payload;
      signature_len = length signature;
    })

  unfoldable pub read_artifacts :
      Files → Bytes → ℕ → List Entry → ℕ → Outcome Error (List Artifact × ℕ)
  read_artifacts files public_bytes index [] allocated = ok ([], allocated)
  read_artifacts files public_bytes index (entry ∷ entries) allocated = do
    artifact ← read_artifact files public_bytes index entry
    allocated' ← or_overflow (grown allocated artifact)
    rest ← read_artifacts files public_bytes (index + 1) entries allocated'
    ok (artifact ∷ rest.0, rest.1)

  -- `bundle`, once its directory is open.
  unfoldable pub bundle_files : Files → Option Bytes → Outcome Error ValidatedBundle
  bundle_files files public_key = do
    manifest_bytes ← read_limited files (codes "manifest.json") 1048576
    manifest_signature ← read_limited files (codes "manifest.json.sig") 65536
    public_bytes ← key_read public_key
    domain ← manifest_domain (domain_for (codes "boot-set-manifest"))
    verify_reader manifest_bytes public_bytes domain manifest_signature
    manifest ← parse_manifest lib manifest_bytes
    allocated ←
        or_overflow (
          checked_add (allocation (length manifest_bytes)) (allocation (length manifest_signature)))
    read ← read_artifacts files public_bytes 0 manifest.files allocated
    ok (record {
      manifest = manifest;
      manifest_bytes = manifest_bytes;
      manifest_signature = manifest_signature;
      artifacts = read.0;
      allocated_bytes = read.1;
    })

  abbrev pub bundle : Option Node → Option Bytes → Outcome Error ValidatedBundle
  bundle none public_key = err io
  bundle (some not_folder) public_key = err io
  bundle (some (folder files)) public_key = bundle_files files public_key

-- ===== src/Update/Manifest.antt =====
-- nmbl-boot-update/src/manifest.rs and the error type of lib.rs: what a boot set's manifest says and
-- the test of its shape. Texts are bytes, a BTreeSet is a list, and serde_json and std::path are
-- parameters. An `Invalid` keeps what its message names.
use siratis_nmbl_bootloader.Prelude.{
  ℕ, Bool, true, false, not, ◌&&◌, ◌||◌, Option, none, some, List, [], ◌∷◌, ◌++◌, leb, ◌==◌,
  if◌then◌else◌, length, any, Bytes, bytes_eq, Outcome, ok, err, ◌>>=◌, ◌>>◌, codes, is_empty,
}
use siratis_nmbl_bootloader.Sig.Verify.{Crypto}

pub data Role : Type 0 where
  bootloader kernel initrd rescue network tools config : Role

pub data Reason : Type 0 where
  bad_json bad_version bad_set_id bad_target_slot names_differ bad_sha512 : Reason
  duplicate_destination duplicate_filename : Reason
  unsafe_path : Bytes → Reason
  wrong_destination wrong_domain duplicate_role missing_role : Role → Reason
  no_manifest_domain size_overflow malformed_selector low_space non_file_in_slot : Reason
  not_a_directory short_copy no_artifact : Reason
  too_large : ℕ → Reason
  not_a_file digest_mismatch unknown_domain wrong_slot : Bytes → Reason

pub data Error : Type 0 where
  invalid : Reason → Error
  io signature_failed : Error

pub record Entry : Type 0 where
  pub role : Role
  pub destination : Bytes
  pub payload : Bytes
  pub signature : Bytes
  pub domain : Bytes
  pub sha512 : Bytes

pub record Manifest : Type 0 where
  pub version : ℕ
  pub set_id : Bytes
  pub target_slot : Bytes
  pub files : List Entry

-- A component of a path, `Component::Normal` or another.
pub data Component : Type 0 where
  normal other : Component

-- `serde_json::from_slice` for a Manifest, `Path::is_absolute`, `Path::components` and `Sha512`.
pub record Libraries : Type 0 where
  pub crypto : Crypto
  pub read_json : Bytes → Option Manifest
  pub is_absolute : Bytes → Bool
  pub components : Bytes → List Component
  pub sha512 : Bytes → Bytes

-- `if !test { return Err(…) }`
abbrev pub demand : Bool → Reason → Outcome Error (Unit {0})
demand true why = ok tt
demand false why = err (invalid why)

abbrev pub role_eq : Role → Role → Bool
role_eq bootloader bootloader = true
role_eq kernel kernel = true
role_eq initrd initrd = true
role_eq rescue rescue = true
role_eq network network = true
role_eq tools tools = true
role_eq config config = true
role_eq _ _ = false

-- `Role::domain`
unfoldable pub role_domain : Role → Bytes
role_domain config = codes "boot-config"
role_domain rescue = codes "rescue-sfs"
role_domain network = codes "network-stage"
role_domain tools = codes "rescue-tools"
role_domain bootloader = codes "boot-set-artifact"
role_domain kernel = codes "boot-set-artifact"
role_domain initrd = codes "boot-set-artifact"

unfoldable pub expected_destination : Role → Bytes
expected_destination bootloader = codes "bootloader"
expected_destination kernel = codes "kernel"
expected_destination initrd = codes "initrd"
expected_destination rescue = codes "rescue"
expected_destination network = codes "network"
expected_destination tools = codes "tools"
expected_destination config = codes "config"

abbrev pub is_hexdigit : ℕ → Bool
is_hexdigit c =
    (leb b'0' c && leb c b'9') || ((leb b'a' c && leb c b'f') || (leb b'A' c && leb c b'F'))

abbrev pub is_hex : Bytes → Bool
is_hex [] = true
is_hex (c ∷ text) = is_hexdigit c && is_hex text

-- 128 hexadecimal digits.
unfoldable pub is_digest : Bytes → Bool
is_digest text = (length text == 128) && is_hex text

abbrev is_other : Component → Bool
is_other normal = false
is_other other = true

abbrev pub dot_sig : Bytes → Bytes
dot_sig name = name ++ codes ".sig"

-- The three sets of the loop.
pub record Seen : Type 0 where
  pub roles : List Role
  pub destinations : List Bytes
  pub sources : List Bytes

abbrev pub has_role : Role → List Role → Bool
has_role r roles = any (λ s. role_eq s r) roles

abbrev pub has_text : Bytes → List Bytes → Bool
has_text text texts = any (λ s. bytes_eq s text) texts

abbrev pub required_roles : List Role
required_roles = bootloader ∷ kernel ∷ initrd ∷ rescue ∷ config ∷ []

abbrev pub none_seen : Seen
none_seen = record { roles = []; destinations = []; sources = [] }

unfoldable pub check_required : List Role → List Role → Outcome Error (Unit {0})
check_required [] roles = ok tt
check_required (r ∷ required) roles =
    demand (has_role r roles) (missing_role r) >> check_required required roles

module _ (lib : Libraries) where
  unfoldable pub validate_relative : Bytes → Bool → Outcome Error (Unit {0})
  validate_relative path allow_subdirs = do
    demand (not (is_empty path || lib.is_absolute path)) (unsafe_path path)
    demand
        (not (
          any is_other (lib.components path)
          || (not allow_subdirs && not (length (lib.components path) == 1))))
        (unsafe_path path)

  -- One turn of the loop over the files.
  unfoldable pub check_entry : Entry → Seen → Outcome Error Seen
  check_entry entry seen = do
    validate_relative entry.destination false
    validate_relative entry.payload false
    validate_relative entry.signature false
    demand
        (bytes_eq entry.payload entry.destination
          && bytes_eq entry.signature (dot_sig entry.destination))
        names_differ
    demand (bytes_eq entry.destination (expected_destination entry.role))
        (wrong_destination entry.role)
    demand (bytes_eq entry.domain (role_domain entry.role)) (wrong_domain entry.role)
    demand (is_digest entry.sha512) bad_sha512
    demand (not (has_role entry.role seen.roles)) (duplicate_role entry.role)
    demand (not (has_text entry.destination seen.destinations)) duplicate_destination
    demand (not (has_text entry.payload seen.sources)) duplicate_filename
    demand (not (has_text entry.signature (entry.payload ∷ seen.sources))) duplicate_filename
    ok (record {
      roles = entry.role ∷ seen.roles;
      destinations = entry.destination ∷ seen.destinations;
      sources = entry.signature ∷ entry.payload ∷ seen.sources;
    })

  unfoldable pub check_entries : List Entry → Seen → Outcome Error Seen
  check_entries [] seen = ok seen
  check_entries (entry ∷ entries) seen =
      check_entry entry seen >>= λ seen'. check_entries entries seen'

  unfoldable pub validate_shape : Manifest → Outcome Error (Unit {0})
  validate_shape manifest = do
    demand (manifest.version == 1) bad_version
    demand (is_digest manifest.set_id) bad_set_id
    demand (bytes_eq manifest.target_slot (codes "A") || bytes_eq manifest.target_slot (codes "B"))
        bad_target_slot
    seen ← check_entries manifest.files none_seen
    check_required required_roles seen.roles

  abbrev shaped : Option Manifest → Outcome Error Manifest
  shaped none = err (invalid bad_json)
  shaped (some manifest) = validate_shape manifest >> ok manifest

  -- `Manifest::parse`
  unfoldable pub parse_manifest : Bytes → Outcome Error Manifest
  parse_manifest bytes = shaped (lib.read_json bytes)

-- `Manifest::slot` as the name of the directory.
pub data Slot : Type 0 where
  slot_a slot_b : Slot

unfoldable pub manifest_slot : Manifest → Slot
manifest_slot manifest = if bytes_eq manifest.target_slot (codes "A") then slot_a else slot_b

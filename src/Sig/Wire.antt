-- ===== src/Sig/Wire.antt =====
-- sig/wire.rs: the fixed-width header of a sidecar.
use siratis_nmbl_bootloader.Prelude.{
  Outcome, ok, err, ◌>>=◌, ◌>>◌, ℕ, ◌+◌, Bool, true, false, not, Option, none, some, [], ◌∷◌, ◌==◌,
  get_elem?, replicate, Bytes, get_range, split_at_checked, write_range, bytes_eq, u32_to_le,
  u32_from_le,
}
use siratis_nmbl_bootloader.Sig.Alg.{
  AlgId, HashId, alg_from_u8, alg_to_u8, hash_from_u8, hash_to_u8, sig_len,
}

abbrev magic : Bytes
magic = b'N' ∷ b'M' ∷ b'B' ∷ b'L' ∷ b'S' ∷ b'I' ∷ b'G' ∷ b'1' ∷ []

abbrev pub version : ℕ
version = 1

abbrev off_magic : ℕ
off_magic = 0

abbrev off_version : ℕ
off_version = 8

abbrev off_alg_id : ℕ
off_alg_id = 9

abbrev off_hash_id : ℕ
off_hash_id = 10

abbrev pub off_reserved : ℕ
off_reserved = 11

abbrev off_key_id : ℕ
off_key_id = 12

abbrev off_domain : ℕ
off_domain = 16

abbrev pub domain_len : ℕ
domain_len = 32

abbrev pub header_len : ℕ
header_len = off_domain + domain_len

abbrev pub sidecar_len : AlgId → ℕ
sidecar_len alg = header_len + sig_len alg

pub record Header : Type 0 where
  pub alg : AlgId
  pub hash : HashId
  pub key_id : ℕ
  pub domain : Bytes

pub data DecodeError : Type 0 where
  too_short : DecodeError
  bad_magic : DecodeError
  bad_version : ℕ → DecodeError
  bad_alg : ℕ → DecodeError
  bad_hash : ℕ → DecodeError

abbrev pub Decoded {ℓ} : Type ℓ → Type ℓ
Decoded A = Outcome DecodeError A

-- `ok_or`
abbrev or_err {ℓ} : {A : Type ℓ} → Option A → DecodeError → Decoded A
or_err none e = err e
or_err (some a) e = ok a

-- An early `return Err(e)` under `if`.
abbrev reject_if : Bool → DecodeError → Decoded (Unit {0})
reject_if true e = err e
reject_if false e = ok tt

unfoldable pub decode : Bytes → Decoded Header
decode buf = do
  (head, rest) ← or_err (split_at_checked header_len buf) too_short
  found ← or_err (get_range off_magic off_version head) too_short
  reject_if (not (bytes_eq found magic)) bad_magic
  v ← or_err (get_elem? head off_version) too_short
  reject_if (not (v == version)) (bad_version v)
  alg_byte ← or_err (get_elem? head off_alg_id) too_short
  alg ← or_err (alg_from_u8 alg_byte) (bad_alg alg_byte)
  hash_byte ← or_err (get_elem? head off_hash_id) too_short
  hash ← or_err (hash_from_u8 hash_byte) (bad_hash hash_byte)
  key_id_bytes ← or_err (get_range off_key_id off_domain head) too_short
  key_id ← or_err (u32_from_le key_id_bytes) too_short
  domain ← or_err (get_range off_domain header_len head) too_short
  ok (record { alg = alg; hash = hash; key_id = key_id; domain = domain })

unfoldable pub encode : Header → Bytes
encode h = write_range off_domain header_len h.domain (
    write_range off_key_id off_domain (u32_to_le h.key_id) (
      write_range off_hash_id off_reserved (hash_to_u8 h.hash ∷ []) (
        write_range off_alg_id off_hash_id (alg_to_u8 h.alg ∷ []) (
          write_range off_version off_alg_id (version ∷ [])
            (write_range off_magic off_version magic (replicate header_len 0))))))

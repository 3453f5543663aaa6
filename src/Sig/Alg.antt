-- ===== src/Sig/Alg.antt =====
-- sig/alg.rs: the algorithm and digest identifiers of a sidecar, and the widths of FIPS 204.
use siratis_nmbl_bootloader.Prelude.{ℕ, Bool, true, false, Option, none, some, ◌==◌, if◌then◌else◌}

pub data AlgId : Type 0 where
  ml_dsa65 ml_dsa87 : AlgId

pub data HashId : Type 0 where
  sha512 : HashId

abbrev pub alg_from_u8 : ℕ → Option AlgId
alg_from_u8 v = if v == 1 then some ml_dsa65 else if v == 2 then some ml_dsa87 else none

abbrev pub alg_to_u8 : AlgId → ℕ
alg_to_u8 ml_dsa65 = 1
alg_to_u8 ml_dsa87 = 2

abbrev pub pk_len : AlgId → ℕ
pk_len ml_dsa65 = 1952
pk_len ml_dsa87 = 2592

abbrev pub sig_len : AlgId → ℕ
sig_len ml_dsa65 = 3309
sig_len ml_dsa87 = 4627

abbrev pub hash_from_u8 : ℕ → Option HashId
hash_from_u8 v = if v == 1 then some sha512 else none

abbrev pub hash_to_u8 : HashId → ℕ
hash_to_u8 sha512 = 1

-- `==` on `AlgId`.
abbrev pub alg_eq : AlgId → AlgId → Bool
alg_eq ml_dsa65 ml_dsa65 = true
alg_eq ml_dsa87 ml_dsa87 = true
alg_eq _ _ = false

-- ===== src/State/Error.antt =====
-- The errors of state/io.rs (`NmblError` of error/mod.rs, with its `context` as an enumeration),
-- and results.
use siratis_nmbl_bootloader.Prelude.{Outcome, ℕ}
pub use siratis_nmbl_bootloader.Prelude.{ok, err, ◌>>=◌, ◌>>◌}

pub data ErrorKind : Type 0 where
  invalid_data other : ErrorKind

-- The `context` of an `NmblError::Io`.
pub data Context : Type 0 where
  opening reading decoding encoding opening_for_write writing flushing syncing : Context
  creating_state_dir re_encoding round_tripping re_reading : Context
  validating_original validating_encoding re_encoding_original : Context

pub data NmblError : Type 0 where
  io : ErrorKind → Context → NmblError
  state_too_large : ℕ → ℕ → NmblError
  state_roundtrip_mismatch : NmblError
  config_invalid : NmblError
  stateful_exhausted : NmblError

abbrev pub Result {ℓ} : Type ℓ → Type ℓ
Result A = Outcome NmblError A

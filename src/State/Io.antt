-- ===== src/State/Io.antt =====
-- state/io.rs and state/rescue_exit.rs: `state.bin` on disk. The file is its bytes, or `none` where
-- it is absent; nothing else writes it during a call. CBOR is the crate ciborium, a parameter. What
-- the operating system refuses during one access of the file is a record of faults.
use siratis_nmbl_bootloader.Prelude.{
  ℕ, suc, ◌-◌, ◌*◌, Bool, false, Option, none, some, List, ◌++◌, ltb, if◌then◌else◌, length, take,
  replicate,
}
use siratis_nmbl_bootloader.State.Types.{State, file_size, known_version}
use siratis_nmbl_bootloader.State.Error.{
  NmblError, io, state_too_large, Result, ok, err, invalid_data, other, opening, reading, decoding,
  encoding, opening_for_write, writing, flushing, syncing,
}

-- `ciborium::into_writer` and `ciborium::from_reader` at `State` and at `ciborium::Value`, and the
-- derived `PartialEq` of `State`.
pub record Cbor : Type 1 where
  pub Value : Type 0
  pub write_state : State → Option (List ℕ)
  pub read_state : List ℕ → Option State
  pub write_value : Value → Option (List ℕ)
  pub read_value : List ℕ → Option Value

-- What fails while the file is opened and read, or opened and written. A write may stop after some
-- bytes.
pub record Faults : Type 0 where
  pub open_fails : Bool
  pub read_fails : Bool
  pub write_stops : Option ℕ
  pub flush_fails : Bool
  pub fsync_fails : Bool

abbrev pub no_faults : Faults
no_faults = record {
  open_fails = false;
  read_fails = false;
  write_stops = none;
  flush_fails = false;
  fsync_fails = false;
}

abbrev pub Disk : Type 0
Disk = Option (List ℕ)

abbrev pub read_cap : ℕ
read_cap = file_size * 2

-- `buf.resize(FILE_SIZE, 0)` where `buf` is shorter.
unfoldable pub pad : List ℕ → List ℕ
pad buf = buf ++ replicate (file_size - length buf) 0

abbrev pub of_option {ℓ} : {A : Type ℓ} → Option A → NmblError → Result A
of_option none e = err e
of_option (some a) e = ok a

module _ (cbor : Cbor) where
  open cbor use {Value, write_state, read_state, write_value, read_value}

  abbrev checked_version : State → Option State
  checked_version decoded =
      if ltb known_version decoded.state_format_version then none else some decoded

  unfoldable pub decode_file : List ℕ → Result (Option State)
  decode_file contents =
      let buf = take (suc read_cap) contents in
      if ltb read_cap (length buf) then err (io invalid_data reading) else elim (read_state buf) [
        | none ↦ err (io invalid_data decoding)
        | some decoded ↦ ok (checked_version decoded)
      ]

  unfoldable pub read : Faults → Disk → Result (Option State)
  read os disk = if os.open_fails then err (io other opening) else elim disk [
    | none ↦ ok none
    | some contents ↦ if os.read_fails then err (io other reading) else decode_file contents
  ]

  -- The open file is truncated before the first byte is written.
  unfoldable pub write_bytes : Faults → List ℕ → Disk → Result (Unit {0}) × Disk
  write_bytes os buf disk =
      if os.open_fails then (err (io other opening_for_write), disk) else elim os.write_stops [
        | some n ↦ (err (io other writing), some (take n buf))
        | none ↦
            if os.flush_fails
            then (err (io other flushing), some buf)
            else if os.fsync_fails
            then (err (io other syncing), some buf)
            else (ok tt, some buf)
      ]

  unfoldable pub write_padded : Faults → State → Disk → Result (Unit {0}) × Disk
  write_padded os s disk = elim (write_state s) [
    | none ↦ (err (io other encoding), disk)
    | some buf ↦
        if ltb (file_size - 1) (length buf)
        then (err (state_too_large (length buf) file_size), disk)
        else write_bytes os (pad buf) disk
  ]

-- ===== src/State/Persist.antt =====
-- The operations of state/io.rs, state/rescue_exit.rs and main_parts/stateful.rs on `state.bin`:
-- each reads the file, changes the state and writes it back. What `profiles_dir` holds enters as
-- the results of `active_profile_generation` and `profile_generation_system`.
use siratis_nmbl_bootloader.Prelude.{
  bytes_eq, ℕ, suc, ◌-◌, String, Bool, true, false, not, ◌||◌, Option, none, some, List, ltb,
  if◌then◌else◌, length, take,
}
use siratis_nmbl_bootloader.State.Types.{State, default_state, file_size, state_eq}
use siratis_nmbl_bootloader.State.Decide.{non_max_u32}
use siratis_nmbl_bootloader.State.Mark.{
  boot_succeeded, apply_unproven_mark, rescue_booted, consume_retry,
}
use siratis_nmbl_bootloader.State.Error.{
  io, state_too_large, state_roundtrip_mismatch, Result, ok, err, ◌>>=◌, ◌>>◌, invalid_data, other,
  creating_state_dir, re_encoding, round_tripping, re_reading, validating_original,
  validating_encoding, re_encoding_original,
}
use siratis_nmbl_bootloader.State.Io.{
  Cbor, Faults, Disk, read, write_padded, pad, read_cap, of_option,
}

-- A change that an operation makes: the state to write, or `none` to leave the file, and a result.
abbrev mark_unproven_change : Option ℕ → Option String → State → Option State × Unit {0}
mark_unproven_change none system s = (none, tt)
mark_unproven_change (some number) system s = elim (non_max_u32 number) [
  | none ↦ (none, tt)
  | some generation ↦
      if state_eq (apply_unproven_mark s generation system) s
      then (none, tt)
      else (some (apply_unproven_mark s generation system), tt)
]

abbrev pub take_authorized : Option ℕ → List ℕ → State → Option State × Option ℕ
take_authorized none available s = (none, none)
take_authorized (some generation) available s =
    (some (consume_retry s generation available).0, (consume_retry s generation available).1)

abbrev pub take_retry_change : List ℕ → State → Option State × Option ℕ
take_retry_change available s = take_authorized s.rescue_booted_generation available s

abbrev pub after_write : {A : Type 0} → A → Result (Unit {0}) × Disk → Result A × Disk
after_write a (ok _, disk) = (ok a, disk)
after_write a (err e, disk) = (err e, disk)

module _ (cbor : Cbor) where
  open cbor use {write_state, read_state, write_value, read_value}

  -- The codec's own round trip, of the first half of `validate_existing`.
  abbrev codec_agrees : State → Option State → Result (Unit {0})
  codec_agrees s none = err (io invalid_data round_tripping)
  codec_agrees s (some round_tripped) =
      if state_eq round_tripped s then ok tt else err state_roundtrip_mismatch

  abbrev pub fits_slot : List ℕ → Result (List ℕ)
  fits_slot buf =
      if ltb (file_size - 1) (length buf)
      then err (state_too_large (length buf) file_size)
      else ok buf

  abbrev pub check_codec : State → Result (Unit {0})
  check_codec s = do
    encoded ← of_option (write_state s) (io other re_encoding)
    reencoded ← fits_slot encoded
    codec_agrees s (read_state reencoded)

  -- The second half: the bytes on disk against their own canonical encoding.
  abbrev same_state : State → State → Result (Unit {0})
  same_state reread s = if state_eq reread s then ok tt else err state_roundtrip_mismatch

  abbrev pub canonical : State → List ℕ → List ℕ → Result State
  canonical s on_disk encoded =
      if bytes_eq on_disk (pad encoded) then ok s else err state_roundtrip_mismatch

  abbrev pub check_original : State → List ℕ → Result State
  check_original s on_disk = do
    reread ← of_option (read_state on_disk) (io invalid_data validating_original)
    same_state reread s
    original ← of_option (read_value on_disk) (io invalid_data validating_encoding)
    encoded ← of_option (write_value original) (io other re_encoding_original)
    canonical_existing ← fits_slot encoded
    canonical s on_disk canonical_existing

  abbrev pub reread_bytes : Faults → Disk → Result (List ℕ)
  reread_bytes os none = err (io other re_reading)
  reread_bytes os (some contents) =
      if os.open_fails || os.read_fails
      then err (io other re_reading)
      else if ltb read_cap (length (take (suc read_cap) contents))
      then err state_roundtrip_mismatch
      else ok (take (suc read_cap) contents)

  unfoldable pub validate_existing : Faults → State → Disk → Result State
  validate_existing os s disk = do
    check_codec s
    on_disk ← reread_bytes os disk
    check_original s on_disk

  abbrev pub validated : Faults → Disk → Option State → Result State
  validated os disk none = err state_roundtrip_mismatch
  validated os disk (some s) = validate_existing os s disk

  abbrev pub verify_reread : Option State → Result State
  verify_reread none = err state_roundtrip_mismatch
  verify_reread (some reread) =
      if state_eq reread default_state then ok default_state else err state_roundtrip_mismatch

  abbrev pub fresh_after_write : Faults → Result (Unit {0}) × Disk → Result State × Disk
  fresh_after_write os (err e, disk) = (err e, disk)
  fresh_after_write os (ok _, disk) = (read cbor os disk >>= verify_reread, disk)

  -- `path.exists()`, which is false also where the file cannot be looked at.
  abbrev pub exists_at : Bool → Disk → Bool
  exists_at stat_fails none = false
  exists_at stat_fails (some contents) = not stat_fails

  -- `dir_fails` is the outcome of `create_dir_all`, `stat_fails` that of the `stat` behind
  -- `path.exists()`; `os_first` governs the first read or the write, `os_again` the read after it.
  unfoldable pub init_or_validate : Bool → Bool → Faults → Faults → Disk → Result State × Disk
  init_or_validate dir_fails stat_fails os_first os_again disk =
      if dir_fails
      then (err (io other creating_state_dir), disk)
      else if exists_at stat_fails disk
      then ((read cbor os_first disk >>= validated os_again disk), disk)
      else fresh_after_write os_again (write_padded cbor os_first default_state disk)

  abbrev pub write_change : {A : Type 0} → Faults → Disk → Option State × A → Result A × Disk
  write_change os disk (none, a) = (ok a, disk)
  write_change os disk (some s, a) = after_write a (write_padded cbor os s disk)

  abbrev pub update_read :
      {A : Type 0}
      → Faults
      → A
      → (State → Option State × A)
      → Disk
      → Result (Option State)
      → Result A × Disk
  update_read os nothing change disk (err e) = (err e, disk)
  update_read os nothing change disk (ok none) = (ok nothing, disk)
  update_read os nothing change disk (ok (some s)) = write_change os disk (change s)

  -- Read, change and write back. Where the file is absent or of a newer version the result is
  -- `nothing` and the file stays.
  unfoldable pub update :
      {A : Type 0} → Faults → Faults → A → (State → Option State × A) → Disk → Result A × Disk
  update os_read os_write nothing change disk =
      update_read os_write nothing change disk (read cbor os_read disk)

  abbrev pub mark_boot_succeeded : Faults → Faults → Disk → Result (Unit {0}) × Disk
  mark_boot_succeeded os_read os_write =
      update os_read os_write tt (λ s. (some (boot_succeeded s), tt))

  abbrev mark_unproven :
      Faults → Faults → Option ℕ → Option String → Disk → Result (Unit {0}) × Disk
  mark_unproven os_read os_write profile system =
      update os_read os_write tt (mark_unproven_change profile system)

  abbrev pub record_rescue_booted : Faults → Faults → Disk → Result Bool × Disk
  record_rescue_booted os_read os_write =
      update os_read os_write false (λ s. (some (rescue_booted s), true))

  abbrev pub take_rescue_exit_retry : Faults → Faults → List ℕ → Disk → Result (Option ℕ) × Disk
  take_rescue_exit_retry os_read os_write available =
      update os_read os_write none (take_retry_change available)

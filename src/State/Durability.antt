-- ===== src/State/Durability.antt =====
-- What state/io.rs promises of `state.bin`: a completed write is read back, its size is that of the
-- slot, an existing file survives the installer's check, and failures are where they are said to be.
use mathlib.Core.Option
use siratis_nmbl_bootloader.Prelude.{
  ℕ, suc, ◌-◌, ◌≤◌, ◌<◌, ◌≡◌, refl, ap, ◌≢◌, ◌⊎◌, inl, inr, Bool, true, false, none, some, List,
  ◌++◌, arith, ltb, Option-cases, length, replicate, length-append, length-replicate, take_all,
}
use siratis_nmbl_bootloader.State.Types.{
  State, default_state, file_size, known_version, state_eq_refl,
}
use siratis_nmbl_bootloader.State.Error.{Result, ok, err}
use siratis_nmbl_bootloader.State.Io.{
  Cbor, Faults, no_faults, Disk, read_cap, pad, decode_file, read, write_bytes, write_padded,
}
use siratis_nmbl_bootloader.State.Persist.{init_or_validate, fresh_after_write}

-- RFC 8949: an encoded item says where it ends, so decoding it ignores what follows, and gives back
-- what was encoded.
pub record IsSelfDelimiting (cbor : Cbor) : Type 0 where
  pub read_write :
      (s : State) (bytes rest : List ℕ)
      → cbor.write_state s ≡ some bytes
      → cbor.read_state (bytes ++ rest) ≡ some s

pub length-pad : (buf : List ℕ) → length buf < file_size → length (pad buf) ≡ file_size
unfolding pad
length-pad buf h = omega (
  arith,
  length-append buf (replicate (file_size - length buf) 0),
  length-replicate {A = ℕ} (file_size - length buf) 0,
)

write_bytes-ok :
    (os : Faults) (buf : List ℕ) (disk : Disk) (cbor : Cbor)
    → (write_bytes cbor os buf disk).0 ≡ ok tt
    → (write_bytes cbor os buf disk).1 ≡ some buf
unfolding write_bytes
write_bytes-ok os buf disk cbor h = ground arith

-- What a completed write leaves: the encoding of the state, padded to the slot.
pub record IsWritten (cbor : Cbor) (s : State) (disk : Disk) : Type 0 where
  pub bytes : List ℕ
  pub encoded : cbor.write_state s ≡ some bytes
  pub fits : length bytes < file_size
  pub on_disk : disk ≡ some (pad bytes)

IsWritten-case :
    (cbor : Cbor) (os : Faults) (s : State) (disk : Disk) (buf : List ℕ) (big : Bool)
    → cbor.write_state s ≡ some buf
    → ltb (file_size - 1) (length buf) ≡ big
    → (write_padded cbor os s disk).0 ≡ ok tt
    → IsWritten cbor s (write_padded cbor os s disk).1
unfolding write_padded
IsWritten-case cbor os s disk buf true e b h = absurd (ground arith)
IsWritten-case cbor os s disk buf false e b h = record {
  bytes = buf;
  encoded = e;
  fits = ground arith;
  on_disk = ground (arith, write_bytes-ok os (pad buf) disk cbor);
}

pub write_padded-IsWritten :
    (cbor : Cbor) (os : Faults) (s : State) (disk : Disk)
    → (write_padded cbor os s disk).0 ≡ ok tt
    → IsWritten cbor s (write_padded cbor os s disk).1
write_padded-IsWritten cbor os s disk h = elim (Option-cases (cbor.write_state s)) [
  | inl e ↦ absurd (unfold write_padded in ground arith)
  | inr (buf, e) ↦ IsWritten-case cbor os s disk buf (ltb (file_size - 1) (length buf)) e refl h
]

decode_file-pad :
    (cbor : Cbor) (s : State) (buf : List ℕ)
    → IsSelfDelimiting cbor
    → s.state_format_version ≤ known_version
    → cbor.write_state s ≡ some buf
    → length buf < file_size
    → decode_file cbor (pad buf) ≡ ok (some s)
unfolding decode_file
decode_file-pad cbor s buf codec v e h =
    let size : length (pad buf) ≡ file_size = length-pad buf h in
    rw (take_all (suc read_cap) (pad buf) (omega arith)) (ground (arith, size, reads))
  where
    reads : cbor.read_state (pad buf) ≡ some s
    reads = unfold pad in codec.read_write s buf (replicate (file_size - length buf) 0) e

-- A written state of a known version is read back as it was.
pub read_of_IsWritten :
    {cbor : Cbor} {s : State} {disk : Disk}
    → IsSelfDelimiting cbor
    → s.state_format_version ≤ known_version
    → IsWritten cbor s disk
    → read cbor no_faults disk ≡ ok (some s)
unfolding read
read_of_IsWritten {cbor} {s} codec v w =
    rw w.on_disk (decode_file-pad cbor s w.bytes codec v w.encoded w.fits)

-- Where the codec is self-delimiting, the state is of a known version and `write_padded` succeeds,
-- the file holds exactly one slot of 16 KiB and a read without faults gives the state back, whatever
-- the file held before.
pub read-write_padded :
    (cbor : Cbor) (os : Faults) (s : State) (disk : Disk)
    → IsSelfDelimiting cbor
    → s.state_format_version ≤ known_version
    → (write_padded cbor os s disk).0 ≡ ok tt
    → (read cbor no_faults (write_padded cbor os s disk).1 ≡ ok (some s))
      × (Option.map length (write_padded cbor os s disk).1 ≡ some file_size)
read-write_padded cbor os s disk codec v h =
    let w = write_padded-IsWritten cbor os s disk h in
    (read_of_IsWritten codec v w, rw w.on_disk (ap some (length-pad w.bytes w.fits)))

-- Where the state has no encoding, the encoding does not fit the slot or the file cannot be opened,
-- `write_padded` reports an error and the file keeps its contents.
pub write_padded_keeps :
    (cbor : Cbor) (os : Faults) (s : State) (contents : List ℕ)
    → (cbor.write_state s ≡ none)
      ⊎ (os.open_fails ≡ true)
      ⊎ ((bytes : List ℕ) × (cbor.write_state s ≡ some bytes) × (file_size ≤ length bytes))
    → ((write_padded cbor os s (some contents)).1 ≡ some contents)
      × ((write_padded cbor os s (some contents)).0 ≢ ok tt)
unfolding write_padded write_bytes
write_padded_keeps cbor os s contents (inl e) = (ground arith, ground arith)
write_padded_keeps cbor os s contents (inr (inl e)) = (ground arith, ground arith)
write_padded_keeps cbor os s contents (inr (inr (bytes, e, h))) = (ground arith, ground arith)

-- The installer leaves an existing file that `stat` finds as it was, whatever else fails.
pub init_or_validate_keeps :
    (cbor : Cbor) (dir_fails : Bool) (os_first os_again : Faults) (contents : List ℕ)
    → (init_or_validate cbor dir_fails false os_first os_again (some contents)).1 ≡ some contents
unfolding init_or_validate
init_or_validate_keeps cbor true os os' contents = refl
init_or_validate_keeps cbor false os os' contents = refl

fresh_write-ok :
    (cbor : Cbor) (r : Result (Unit {0}) × Disk)
    → IsSelfDelimiting cbor
    → r.0 ≡ ok tt
    → IsWritten cbor default_state r.1
    → fresh_after_write cbor no_faults r ≡ (ok default_state, r.1)
fresh_write-ok cbor (err e, disk) codec h w = absurd (cc)
fresh_write-ok cbor (ok _, disk) codec h w =
    rw (read_of_IsWritten codec (omega arith) w) (ground (arith, state_eq_refl default_state))

-- Where there is no file, the codec is self-delimiting, the directory and the write succeed and the
-- reading back has no fault, the installer returns the default state, and a read without faults of
-- the file it leaves gives that state.
pub init_or_validate-fresh :
    (cbor : Cbor) (os : Faults)
    → IsSelfDelimiting cbor
    → (write_padded cbor os default_state none).0 ≡ ok tt
    → ((init_or_validate cbor false false os no_faults none).0 ≡ ok default_state)
      × (read cbor no_faults (init_or_validate cbor false false os no_faults none).1
          ≡ ok (some default_state))
unfolding init_or_validate
init_or_validate-fresh cbor os codec h =
    let w = write_padded-IsWritten cbor os default_state none h in
    let e : fresh_after_write cbor no_faults (write_padded cbor os default_state none)
        ≡ (ok default_state, (write_padded cbor os default_state none).1) =
      fresh_write-ok cbor (write_padded cbor os default_state none) codec h w in
    rw e (refl, read_of_IsWritten codec (omega arith) w)

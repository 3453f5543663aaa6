-- ===== src/State/Installed.antt =====
-- What a successful `init_or_validate` of state/io.rs leaves on the disk.
use mathlib.Core.Option
use siratis_nmbl_bootloader.Prelude.{
  ℕ, suc, ◌-◌, ◌<◌, ◌≡◌, refl, ap, subst, ◌∙◌, ◌⊎◌, inl, inr, Bool, true, false, Option, none, some,
  List, arith, ltb, Bool-cases, length, take, length-take, bytes_eq, bytes_eq→eq, ok, err, ◌>>=◌,
}
use siratis_nmbl_bootloader.State.Types.{file_size, State, default_state, state_eq, state_eq_refl}
use siratis_nmbl_bootloader.State.Error.{Result, other, re_encoding_original, io}
use siratis_nmbl_bootloader.State.Io.{
  Cbor, Faults, no_faults, Disk, read_cap, pad, of_option, read, write_padded,
}
use siratis_nmbl_bootloader.State.Persist.{
  fits_slot, canonical, check_original, validate_existing, validated, verify_reread,
  fresh_after_write, init_or_validate,
}
use siratis_nmbl_bootloader.State.Durability.{length-pad, IsWritten, write_padded-IsWritten}

read-no_faults :
    (cbor : Cbor) (os : Faults) (contents : List ℕ) (s : State)
    → read cbor os (some contents) ≡ ok (some s)
    → read cbor no_faults (some contents) ≡ ok (some s)
unfolding read
read-no_faults cbor os contents s h = ground arith

canonical-ok :
    (cbor : Cbor) (s t : State) (on_disk encoded : List ℕ)
    → canonical cbor s on_disk encoded ≡ ok t
    → (s ≡ t) × (on_disk ≡ pad encoded)
canonical-ok cbor s t on_disk encoded h = elim (Bool-cases (bytes_eq on_disk (pad encoded))) [
  | inl same ↦ (ground arith, bytes_eq→eq on_disk (pad encoded) same)
  | inr differs ↦ absurd (ground arith)
]

check_original-ok :
    (cbor : Cbor) (s t : State) (on_disk : List ℕ)
    → check_original cbor s on_disk ≡ ok t
    → (s ≡ t) × (length on_disk ≡ file_size)
check_original-ok cbor s t on_disk h =
    go (cbor.read_state on_disk) refl (cbor.read_value on_disk) refl h
  where
    slotted :
        (encoded : List ℕ)
        → length encoded < file_size
        → canonical cbor s on_disk encoded ≡ ok t
        → (s ≡ t) × (length on_disk ≡ file_size)
    slotted encoded fits k =
        let (same, padded) = canonical-ok cbor s t on_disk encoded k in
        (same, ap length padded ∙ length-pad encoded fits)

    written :
        (o : Option (List ℕ))
        → (of_option o (io other re_encoding_original) >>= λ encoded.
            fits_slot cbor encoded >>= λ fitting. canonical cbor s on_disk fitting)
          ≡ ok t
        → (s ≡ t) × (length on_disk ≡ file_size)
    written none k = absurd (cc)
    written (some encoded) k = elim (Bool-cases (ltb (file_size - 1) (length encoded))) [
      | inl big ↦ absurd (ground arith)
      | inr fits ↦ slotted encoded (ground arith) (rw fits at k)
    ]

    go :
        (o : Option State)
        → cbor.read_state on_disk ≡ o
        → (v : Option cbor.Value) → cbor.read_value on_disk ≡ v
        → check_original cbor s on_disk ≡ ok t
        → (s ≡ t) × (length on_disk ≡ file_size)
    go none e v f k = absurd (ground arith)
    go (some reread) e none f k = absurd (ground arith)
    go (some reread) e (some value) f k = written (cbor.write_value value) (ground arith)

validate_existing-ok :
    (cbor : Cbor) (os : Faults) (s t : State) (contents : List ℕ)
    → validate_existing cbor os s (some contents) ≡ ok t
    → (s ≡ t) × (length contents ≡ file_size)
unfolding validate_existing
validate_existing-ok cbor os s t contents h =
    let (same, size) = check_original-ok cbor s t (take (suc read_cap) contents) (ground arith) in
    (same, omega (arith, size, length-take (suc read_cap) contents))

-- A file of exactly one slot, which is read back as this state.
pub record IsInstalled (cbor : Cbor) (s : State) (disk : Disk) : Type 0 where
  pub on_disk : State
  pub reads : read cbor no_faults disk ≡ ok (some on_disk)
  pub same : state_eq on_disk s ≡ true
  pub size : Option.map length disk ≡ some file_size

existing-IsInstalled :
    (cbor : Cbor) (os os' : Faults) (s : State) (contents : List ℕ)
    → (read cbor os (some contents) >>= validated cbor os' (some contents)) ≡ ok s
    → IsInstalled cbor s (some contents)
existing-IsInstalled cbor os os' s contents h = go (read cbor os (some contents)) refl h
  where
    go :
        (r : Result (Option State))
        → read cbor os (some contents) ≡ r
        → (r >>= validated cbor os' (some contents)) ≡ ok s
        → IsInstalled cbor s (some contents)
    go (err why) e k = absurd (cc)
    go (ok none) e k = absurd (cc)
    go (ok (some found)) e k =
        let (same, size) = validate_existing-ok cbor os' found s contents k in
        record {
          on_disk = found;
          reads = read-no_faults cbor os contents found e;
          same = subst (λ t. state_eq found t ≡ true) same (state_eq_refl found);
          size = ap some size;
        }

fresh-IsInstalled :
    (cbor : Cbor) (os : Faults) (s : State) (r : Result (Unit {0}) × Disk)
    → (r.0 ≡ ok tt → IsWritten cbor default_state r.1)
    → (fresh_after_write cbor os r).0 ≡ ok s
    → IsInstalled cbor s (fresh_after_write cbor os r).1
fresh-IsInstalled cbor os s (err why, disk) w h = absurd (cc)
fresh-IsInstalled cbor os s (ok _, disk) w h = go (read cbor os disk) refl h (w refl)
  where
    agree : (reread : State) → verify_reread cbor (some reread) ≡ ok s → state_eq reread s ≡ true
    agree reread k = elim (Bool-cases (state_eq reread default_state)) [
      | inl same ↦ subst (λ t. state_eq reread t ≡ true) (ground arith) same
      | inr differs ↦ absurd (ground arith)
    ]

    go :
        (r : Result (Option State))
        → read cbor os disk ≡ r
        → (r >>= verify_reread cbor) ≡ ok s
        → IsWritten cbor default_state disk
        → IsInstalled cbor s disk
    go (err why) e k written = absurd (cc)
    go (ok none) e k written = absurd (cc)
    go (ok (some reread)) e k written = record {
      on_disk = reread;
      reads = rw written.on_disk (
          read-no_faults cbor os (pad written.bytes) reread
            (subst (λ d. read cbor os d ≡ ok (some reread)) written.on_disk e));
      same = agree reread k;
      size = rw written.on_disk (ap some (length-pad written.bytes written.fits));
    }

-- Where the installer returns a state, the file is exactly one slot of 16 KiB, and a read without
-- faults gives a state equal to the returned one; this file is the one that was there, unless there was
-- none or `stat` failed. Nothing is asked of the codec, nor of the faults on the way.
pub init_or_validate-IsInstalled :
    (cbor : Cbor) (dir_fails stat_fails : Bool) (os_first os_again : Faults) (before : Disk)
    (s : State)
    → (init_or_validate cbor dir_fails stat_fails os_first os_again before).0 ≡ ok s
    → IsInstalled cbor s (init_or_validate cbor dir_fails stat_fails os_first os_again before).1
      × (((init_or_validate cbor dir_fails stat_fails os_first os_again before).1 ≡ before)
          ⊎ (before ≡ none)
          ⊎ (stat_fails ≡ true))
unfolding init_or_validate
init_or_validate-IsInstalled cbor true stat os os' before s h = absurd (cc)
init_or_validate-IsInstalled cbor false stat os os' none s h = (
  fresh-IsInstalled cbor os' s (write_padded cbor os default_state none)
      (write_padded-IsWritten cbor os default_state none) h,
  inr (inl refl),
)
init_or_validate-IsInstalled cbor false true os os' (some contents) s h = (
  fresh-IsInstalled cbor os' s (write_padded cbor os default_state (some contents))
      (write_padded-IsWritten cbor os default_state (some contents)) h,
  inr (inr refl),
)
init_or_validate-IsInstalled cbor false false os os' (some contents) s h =
    (existing-IsInstalled cbor os os' s contents h, inl refl)

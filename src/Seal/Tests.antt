-- ===== src/Seal/Tests.antt =====
-- The seal modules at concrete inputs.
use siratis_nmbl_bootloader.Prelude.{◌≡◌, refl, true, false, none, some, [], ◌∷◌, arith, ok, err}
use siratis_nmbl_bootloader.Seal.Registry.{
  MapperEntry, Store, no_file_faults, rows_of, trim_start, trim_end, merge, lines, split_tab,
  parse_persist_line, parse_rows, persist_load, snapshot, has_name, register_tpm_mapper,
}
use siratis_nmbl_bootloader.Seal.Guard.{
  capped, cap_failed, Os, Guard, cap_step, cap_error, close_entries, close_all, seal_secrets,
}
use siratis_nmbl_bootloader.Seal.Sealing.{IsSealed, seal_secrets-IsSealed}
use siratis_nmbl_bootloader.Seal.Survival.{IsRow, register-survives}

-- Two mappers, "rt" and "h".
abbrev root : MapperEntry
root = record { cryptsetup = b'/' ∷ b'c' ∷ []; name = b'r' ∷ b't' ∷ [] }

abbrev home : MapperEntry
home = record { cryptsetup = b'/' ∷ b'c' ∷ []; name = b'h' ∷ [] }

root-IsRow : IsRow root
unfolding trim_start trim_end
root-IsRow = record {
  no_tab = refl;
  one_line = (refl, refl);
  trimmed = refl;
  nonempty = omega arith;
}

home-IsRow : IsRow home
unfolding trim_start trim_end
home-IsRow = record {
  no_tab = refl;
  one_line = (refl, refl);
  trimmed = refl;
  nonempty = omega arith;
}

-- One mapper in memory, and one that only the file still names.
abbrev two : Store
two = record { mappers = root ∷ []; file = some (rows_of (home ∷ [])) }

abbrev willing : Os
willing = record {
  cap = capped;
  close = λ e. some 0;
  load = no_file_faults;
  remove = λ e. no_file_faults;
}

abbrev fresh : Guard
fresh = record { cap_latch = false; store = two }

both_pending : snapshot no_file_faults two ≡ root ∷ home ∷ []
unfolding snapshot merge persist_load rows_of lines split_tab parse_persist_line parse_rows
    trim_start trim_end
both_pending = refl

both_closed : (seal_secrets willing false fresh).0 ≡ ok tt
unfolding seal_secrets cap_step close_all close_entries snapshot merge persist_load rows_of lines
    split_tab parse_persist_line parse_rows trim_start trim_end
both_closed = refl

seal_secrets-IsSealed_example : IsSealed willing false fresh (seal_secrets willing false fresh).1
seal_secrets-IsSealed_example = seal_secrets-IsSealed willing false fresh both_closed

-- A TPM that cannot be capped stops the seal before anything is closed.
uncappable : seal_secrets (record willing { cap = cap_failed }) false fresh ≡ (err cap_error, fresh)
unfolding seal_secrets cap_step
uncappable = refl

register-survives_example :
    has_name (b'r' ∷ b't' ∷ []) (
      snapshot no_file_faults
        (record (register_tpm_mapper no_file_faults root (record { mappers = []; file = none })) {
          mappers = [];
        }))
    ≡ true
unfolding rows_of
register-survives_example =
    register-survives root [] (record { mappers = []; file = none }) root-IsRow tt refl refl

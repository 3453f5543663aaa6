-- ===== src/Seal/Guard.antt =====
-- policy/guard.rs: capping the PCR that the TPM's secrets are locked with and closing the mappers.
-- The TPM's answer and what `cryptsetup close` gives for each entry are arguments; the detaching of
-- mounts, which is best effort and only helps a close, is among what leads to the latter. An exit
-- code is its bit pattern.
use siratis_nmbl_bootloader.Prelude.{
  ℕ, Bool, true, false, ◌||◌, Option, none, some, List, [], ◌∷◌, ◌==◌, if◌then◌else◌, Outcome, ok,
  err,
}
use siratis_nmbl_bootloader.Seal.Registry.{MapperEntry, Store, FileFaults, snapshot, mark_closed}

-- `CapOutcome` of tpm/mod.rs.
pub data CapOutcome : Type 0 where
  capped no_tpm cap_failed : CapOutcome

-- The cause of a `SealFailed`.
pub data SealFailed : Type 0 where
  tpm_required cap_error : SealFailed
  close_not_run close_exited : MapperEntry → SealFailed

pub record Os : Type 0 where
  pub cap : CapOutcome
  pub close : MapperEntry → Option ℕ
  pub load : FileFaults
  pub remove : MapperEntry → FileFaults

abbrev pub cap_policy : Bool → CapOutcome → Outcome SealFailed (Unit {0})
cap_policy require_tpm capped = ok tt
cap_policy require_tpm no_tpm = if require_tpm then err tpm_required else ok tt
cap_policy require_tpm cap_failed = err cap_error

unfoldable pub cap_step : Os → Bool → Outcome SealFailed (Unit {0})
cap_step os require_tpm = cap_policy require_tpm os.cap

abbrev close_outcome : MapperEntry → ℕ → Outcome SealFailed (Unit {0})
close_outcome entry exit_code =
    if (exit_code == 0) || (exit_code == 4) then ok tt else err (close_exited entry)

abbrev pub close_ran : MapperEntry → Option ℕ → Outcome SealFailed (Unit {0})
close_ran entry none = err (close_not_run entry)
close_ran entry (some exit_code) = close_outcome entry exit_code

abbrev pub close_one : Os → MapperEntry → Outcome SealFailed (Unit {0})
close_one os entry = close_ran entry (os.close entry)

-- The `?` after a close.
abbrev pub closed_next :
    Outcome SealFailed (Unit {0})
    → Outcome SealFailed (Unit {0}) × Store
    → Store
    → Outcome SealFailed (Unit {0}) × Store
closed_next (ok _) rest store = rest
closed_next (err why) rest store = (err why, store)

unfoldable pub close_entries : Os → List MapperEntry → Store → Outcome SealFailed (Unit {0}) × Store
close_entries os [] store = (ok tt, store)
close_entries os (entry ∷ entries) store =
    let rest = close_entries os entries (mark_closed (os.remove entry) entry.name store) in
    closed_next (close_one os entry) rest store

unfoldable pub close_all : Os → Store → Outcome SealFailed (Unit {0}) × Store
close_all os store = close_entries os (snapshot os.load store) store

-- The latch and the registry.
pub record Guard : Type 0 where
  pub cap_latch : Bool
  pub store : Store

abbrev pub closed_guard :
    Outcome SealFailed (Unit {0}) × Store → Outcome SealFailed (Unit {0}) × Guard
closed_guard (result, store) = (result, record { cap_latch = true; store = store })

abbrev pub after_cap :
    Os → Guard → Outcome SealFailed (Unit {0}) → Outcome SealFailed (Unit {0}) × Guard
after_cap os guard (ok _) = closed_guard (close_all os guard.store)
after_cap os guard (err why) = (err why, guard)

-- `ok` is a minted `Sealed`.
unfoldable pub seal_secrets : Os → Bool → Guard → Outcome SealFailed (Unit {0}) × Guard
seal_secrets os require_tpm guard =
    after_cap os guard (if guard.cap_latch then ok tt else cap_step os require_tpm)

unfoldable pub close_best_effort : Os → List MapperEntry → Store → Store
close_best_effort os [] store = store
close_best_effort os (entry ∷ entries) store = elim (close_one os entry) [
  | ok _ ↦ close_best_effort os entries (mark_closed (os.remove entry) entry.name store)
  | err why ↦ close_best_effort os entries store
]

abbrev is_ok : Outcome SealFailed (Unit {0}) → Bool
is_ok (ok _) = true
is_ok (err why) = false

unfoldable pub seal_for_refuse : Os → Bool → Guard → Guard
seal_for_refuse os require_tpm guard = record {
  cap_latch = guard.cap_latch || is_ok (cap_step os require_tpm);
  store = close_best_effort os (snapshot os.load guard.store) guard.store;
}

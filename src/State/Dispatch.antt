-- ===== src/State/Dispatch.antt =====
-- main_parts/stateful.rs: how a boot uses the rollback decision, with the selector and without it;
-- and `active_generation_index` of generations/scan.rs. What the operator's selector returns enters
-- as a result, `active_profile_generation` as the number it reads, or `none`.
use siratis_nmbl_bootloader.Prelude.{ℕ, String, Option, none, some, List}
use siratis_nmbl_bootloader.State.Types.{
  State, Generation, StatefulDecision, honour_tui, force_pick, exhausted,
}
use siratis_nmbl_bootloader.State.Decide.{decide, number_at, position_of}
use siratis_nmbl_bootloader.State.Mark.{attempt}
use siratis_nmbl_bootloader.State.Error.{Result, ok, err, config_invalid, stateful_exhausted}
use siratis_nmbl_bootloader.State.Io.{Cbor, Faults, Disk, read, write_padded}

-- `Decision` of ui/app/types.rs.
pub data Decision : Type 0 where
  boot : ℕ → Option String → Decision
  shell : Decision
  reboot : Decision

unfoldable pub active_generation_index : List Generation → Option ℕ → ℕ
active_generation_index generations none = 0
active_generation_index generations (some number) = elim (position_of number generations) [
  | some idx ↦ idx
  | none ↦ 0
]

-- The `match` on the decision; `selected` is the selector's outcome.
unfoldable pub resolve : StatefulDecision → List Generation → Result Decision → Result Decision
resolve honour_tui generations selected = selected
resolve (force_pick idx) generations selected = elim (number_at generations idx) [
  | none ↦ err config_invalid
  | some number ↦ ok (boot idx none)
]
resolve exhausted generations selected = err stateful_exhausted

module _ (cbor : Cbor) where
  -- A failed write is logged, and the boot goes on.
  abbrev write_attempt : Faults → Option State → Disk → Disk
  write_attempt os none disk = disk
  write_attempt os (some s) disk = (write_padded cbor os s disk).1

  unfoldable pub record_attempt : Faults → State → List Generation → ℕ → Disk → Disk
  record_attempt os s generations index disk = write_attempt os (attempt s generations index) disk

  abbrev pub record_decision : Faults → State → List Generation → Result Decision → Disk → Disk
  record_decision os s generations (ok (boot index cmdline)) disk =
      record_attempt os s generations index disk
  record_decision os s generations (ok shell) disk = disk
  record_decision os s generations (ok reboot) disk = disk
  record_decision os s generations (err e) disk = disk

  abbrev select_in_state :
      Faults → State → List Generation → ℕ → ℕ → Result Decision → Disk → Result Decision × Disk
  select_in_state os s generations active_index max selected disk =
      let (decision, s') = decide s generations active_index max in
      let outcome = resolve decision generations selected in
      (outcome, record_decision os s' generations outcome disk)

  -- Absent, newer or unreadable state: the boot is not stateful.
  abbrev pub select_after_read :
      Faults
      → Result (Option State)
      → List Generation
      → ℕ
      → ℕ
      → Result Decision
      → Disk
      → Result Decision × Disk
  select_after_read os (ok (some s)) generations active_index max selected disk =
      select_in_state os s generations active_index max selected disk
  select_after_read os (ok none) generations active_index max selected disk = (selected, disk)
  select_after_read os (err e) generations active_index max selected disk = (selected, disk)

  -- `stateful` is `max_recovery_attempts` where the option and the state mount are configured.
  unfoldable pub select_with_stateful :
      Faults
      → Faults
      → Option ℕ
      → List Generation
      → Option ℕ
      → Result Decision
      → Disk
      → Result Decision × Disk
  select_with_stateful os_read os_write none generations profile selected disk = (selected, disk)
  select_with_stateful os_read os_write (some max) generations profile selected disk =
      select_after_read os_write (read cbor os_read disk) generations
        (active_generation_index generations profile) max selected disk

  abbrev pub default_boot : ℕ → Result Decision
  default_boot default_index = ok (boot default_index none)

  -- The skip-selector path, with its own match.
  abbrev pub default_in_state :
      Faults → State → List Generation → ℕ → StatefulDecision → Disk → Result Decision × Disk
  default_in_state os s generations default_index honour_tui disk =
      (default_boot default_index, record_attempt os s generations default_index disk)
  default_in_state os s generations default_index (force_pick idx) disk =
      elim (number_at generations idx) [
        | none ↦ (err config_invalid, disk)
        | some number ↦ (ok (boot idx none), record_attempt os s generations idx disk)
      ]
  default_in_state os s generations default_index exhausted disk = (err stateful_exhausted, disk)

  abbrev pub default_after_read :
      Faults → Result (Option State) → List Generation → ℕ → ℕ → ℕ → Disk → Result Decision × Disk
  default_after_read os (ok (some s)) generations active_index max default_index disk =
      let (decision, s') = decide s generations active_index max in
      default_in_state os s' generations default_index decision disk
  default_after_read os (ok none) generations active_index max default_index disk =
      (default_boot default_index, disk)
  default_after_read os (err e) generations active_index max default_index disk =
      (default_boot default_index, disk)

  unfoldable pub select_default_with_stateful :
      Faults → Faults → Option ℕ → List Generation → Option ℕ → ℕ → Disk → Result Decision × Disk
  select_default_with_stateful os_read os_write none generations profile default_index disk =
      (default_boot default_index, disk)
  select_default_with_stateful os_read os_write (some max) generations profile default_index disk =
      default_after_read os_write (read cbor os_read disk) generations
        (active_generation_index generations profile) max default_index disk

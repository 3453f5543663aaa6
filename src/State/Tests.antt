-- ===== src/State/Tests.antt =====
-- Runs of the boot-state modules, and their theorems at inputs that meet the hypotheses.
use mathlib.Core.Option
use siratis_nmbl_bootloader.Prelude.{
  ℕ, zero, suc, ◌≤◌, ◌<◌, ◌≡◌, refl, ◌≢◌, ◌↔◌, ◌⊎◌, inl, true, false, Option, none, some, List, [],
  ◌∷◌, arith, u32_max, length, get_or, take, replicate,
}
use siratis_nmbl_bootloader.State.Types.{
  State, Generation, default_state, default_known_good, exhausted, file_size, state_eq,
}
use siratis_nmbl_bootloader.State.Decide.{
  decide, number_at, note_failed_unproven, pick_fallback, ring_pick, walk_older, rotated_ring,
}
use siratis_nmbl_bootloader.State.Error.{ok}
use siratis_nmbl_bootloader.State.Io.{
  pad, no_faults, Disk, read, write_padded, write_bytes, decode_file,
}
use siratis_nmbl_bootloader.State.Persist.{
  init_or_validate, take_rescue_exit_retry, update, validate_existing,
}
use siratis_nmbl_bootloader.State.Durability.{read-write_padded}
use siratis_nmbl_bootloader.State.Installed.{IsInstalled, init_or_validate-IsInstalled}
use siratis_nmbl_bootloader.State.Mark.{boot_succeeded, apply_unproven_mark, consume_retry}
use siratis_nmbl_bootloader.State.Ring.{IsRing, occurrences}
use siratis_nmbl_bootloader.State.Rotation.{rotated_ring-occurrences, rotated_ring-front}
use siratis_nmbl_bootloader.State.Picked.{Picked, pick_fallback-Picked}
use siratis_nmbl_bootloader.State.Proven.{IsProven}
use siratis_nmbl_bootloader.State.GivingUp.{LeftByGivingUp, decide-LeftByGivingUp}
use siratis_nmbl_bootloader.State.Rollback.{
  decide-IsProven, decide_budget, decide-exhausted, GivesUp,
}
use siratis_nmbl_bootloader.State.RescueRetry.{
  Taken, take_rescue_exit_retry-Taken, take_rescue_exit_retry_once,
}
use siratis_nmbl_bootloader.State.Lifecycle.{IsSound, default_state-IsSound}
use siratis_nmbl_bootloader.State.Events.{Reach-IsSound, here, next, install, succeed}
use siratis_nmbl_bootloader.State.Dispatch.{
  boot, select_default_with_stateful, select_with_stateful,
}
use siratis_nmbl_bootloader.State.Boots.{IsBootable, failing_boots, failing_boots_end}
use siratis_nmbl_bootloader.State.Selection.{select_default_with_stateful_lem}
use siratis_nmbl_bootloader.State.Codec.{toy, toy-IsSelfDelimiting}

abbrev gen : ℕ → Generation
gen n = record {
  number = n;
  profile_link = "";
  toplevel = "";
  kernel = "";
  initrd = "";
  init_path = "";
  kernel_params = [];
  label = "";
}

abbrev on_disk : List Generation
on_disk = gen 3 ∷ gen 2 ∷ gen 1 ∷ []

abbrev ring_of_two : List (Option ℕ)
ring_of_two = some 2 ∷ replicate 19 none

-- The unproven generation 3 was booted and failed; 2 is known to be good.
abbrev failed : State
failed = record default_state {
  last_attempted_generation = some 3;
  last_boot_succeeded = false;
  known_good_generations = ring_of_two;
  unproven_generation = some 3;
}

-- The same with no good generation known and none older.
abbrev cornered : State
cornered = record failed { known_good_generations = default_known_good }

-- A rescue ran after the failed boot of generation 3.
abbrev rescued : State
rescued = record failed { rescue_booted_generation = some 3 }

abbrev rescued_disk : Disk
rescued_disk = (write_padded toy no_faults rescued none).1

read-write_padded_example :
    (read toy no_faults (write_padded toy no_faults failed none).1 ≡ ok (some failed))
    × (Option.map length (write_padded toy no_faults failed none).1 ≡ some file_size)
unfolding write_padded write_bytes
read-write_padded_example =
    read-write_padded toy no_faults failed none toy-IsSelfDelimiting (omega arith) refl

-- The slot that a write of `failed` leaves, which the installer keeps.
abbrev failed_disk : Disk
failed_disk = (write_padded toy no_faults failed none).1

installs : (init_or_validate toy false false no_faults no_faults failed_disk).0 ≡ ok failed
unfolding init_or_validate write_padded write_bytes validate_existing read decode_file pad state_eq
installs = refl

init_or_validate-IsInstalled_example :
    IsInstalled toy failed (init_or_validate toy false false no_faults no_faults failed_disk).1
    × (((init_or_validate toy false false no_faults no_faults failed_disk).1 ≡ failed_disk)
        ⊎ (failed_disk ≡ none)
        ⊎ (false ≡ true))
init_or_validate-IsInstalled_example =
    init_or_validate-IsInstalled toy false false no_faults no_faults failed_disk failed installs

-- Where `stat` fails, the default state replaces the file that is there.
overwrites :
    (init_or_validate toy false true no_faults no_faults failed_disk).1
    ≡ (write_padded toy no_faults default_state none).1
unfolding init_or_validate write_padded write_bytes read decode_file pad state_eq
overwrites = refl

decide-IsProven_example : IsProven failed on_disk 1
unfolding decide note_failed_unproven pick_fallback ring_pick
decide-IsProven_example = decide-IsProven failed on_disk 0 2 1 refl

decide_budget_example : (0 < 2) × ((decide failed on_disk 0 2).1.recovery_attempt ≡ 1)
unfolding decide note_failed_unproven pick_fallback ring_pick
decide_budget_example = decide_budget failed on_disk 0 2 1 (omega arith) refl refl

decide-exhausted_example :
    ((decide cornered (gen 3 ∷ []) 0 2).0 ≡ exhausted) ↔ GivesUp cornered (gen 3 ∷ []) 0 2
decide-exhausted_example = decide-exhausted cornered (gen 3 ∷ []) 0 2

decide-LeftByGivingUp_example : LeftByGivingUp cornered 2 (decide cornered (gen 3 ∷ []) 0 2).1
unfolding decide note_failed_unproven pick_fallback ring_pick walk_older
decide-LeftByGivingUp_example = decide-LeftByGivingUp cornered (gen 3 ∷ []) 0 2 refl

pick_fallback-Picked_example : Picked cornered on_disk 0 (pick_fallback cornered on_disk 0)
pick_fallback-Picked_example = pick_fallback-Picked cornered on_disk 0

ring_of_two-IsRing : IsRing ring_of_two
ring_of_two-IsRing = record { size = refl; once = λ n. ground arith }

rotated_ring-occurrences_example :
    (occurrences 2 (take 19 ring_of_two) ≤ occurrences 2 (rotated_ring 3 ring_of_two on_disk 0))
    × (◌≢◌ {A = ℕ} 2 3 → occurrences 2 (rotated_ring 3 ring_of_two on_disk 0) ≤ 1)
rotated_ring-occurrences_example =
    rotated_ring-occurrences 3 ring_of_two on_disk 0 ring_of_two-IsRing 2

rotated_ring-front_example : get_or (rotated_ring 3 ring_of_two on_disk 0) 0 none ≡ some 3
rotated_ring-front_example =
    rotated_ring-front 3 ring_of_two on_disk 0 ring_of_two-IsRing refl (inl refl)

Reach-IsSound_example : IsSound (boot_succeeded (apply_unproven_mark default_state 3 (some "s")))
Reach-IsSound_example =
    Reach-IsSound default_state-IsSound (next (next here (install 3 (some "s"))) succeed)

take_rescue_exit_retry-Taken_example :
    Taken toy 3
      (3 ∷ [])
      (read toy no_faults rescued_disk)
      (take_rescue_exit_retry toy no_faults no_faults (3 ∷ []) rescued_disk).1
unfolding write_padded write_bytes update read decode_file consume_retry pad
take_rescue_exit_retry-Taken_example =
    take_rescue_exit_retry-Taken toy toy-IsSelfDelimiting no_faults no_faults (3 ∷ []) 3
      rescued_disk refl

take_rescue_exit_retry_once_example :
    let after = (take_rescue_exit_retry toy no_faults no_faults (3 ∷ []) rescued_disk).1 in
    (take_rescue_exit_retry toy no_faults no_faults (3 ∷ []) after ≡ (ok none, after))
    × ((s : State) × (read toy no_faults after ≡ ok (some s))
        × ((generations : List Generation) (active_index max : ℕ)
            → decide s generations active_index max ≡ (exhausted, s)))
unfolding write_padded write_bytes update read decode_file consume_retry pad
take_rescue_exit_retry_once_example =
    take_rescue_exit_retry_once toy toy-IsSelfDelimiting no_faults no_faults no_faults (3 ∷ [])
      (3 ∷ []) 3 rescued_disk refl

select_default_with_stateful_example :
    select_default_with_stateful toy no_faults no_faults (some 2) on_disk (some 3) 0 rescued_disk
    ≡ select_with_stateful toy no_faults no_faults
        (some 2)
        on_disk
        (some 3)
        (ok (boot 0 none))
        rescued_disk
select_default_with_stateful_example =
    select_default_with_stateful_lem toy no_faults no_faults (some 2) on_disk (some 3) 0
      rescued_disk

bootable : IsBootable on_disk 0
bootable = record { recordable = λ i n h. small i n h; default = 3; present = refl }
  where
    small : (i n : ℕ) → number_at on_disk i ≡ some n → n < u32_max
    small zero n h = ground arith
    small (suc zero) n h = ground arith
    small (suc (suc zero)) n h = ground arith
    small (suc (suc (suc i))) n h = ground arith

failing_boots_end_example : failing_boots 4 on_disk 0 2 0 failed ≡ none
failing_boots_end_example = failing_boots_end on_disk 0 2 0 failed (omega arith) bootable

-- ===== src/State/Mark.antt =====
-- The changes that boot and installer events make to the state: `mark_boot_succeeded` and
-- `apply_unproven_mark` of state/io.rs, the two operations of state/rescue_exit.rs and
-- `record_attempt` of main_parts/stateful.rs, each without its file access.
use siratis_nmbl_bootloader.Prelude.{
  ℕ, Bool, true, false, ◌&&◌, not, Option, none, some, List, ◌==◌, opt_eq, is_some, String, str_eq,
  if◌then◌else◌, any,
}
use siratis_nmbl_bootloader.State.Types.{State, Generation}
use siratis_nmbl_bootloader.State.Decide.{in_ring, number_at, non_max_u32}

abbrev pub forget_unproven : State → State
forget_unproven s = record s {
  unproven_generation = none;
  unproven_failed = false;
  unproven_system = none;
}

-- `mark_boot_succeeded`, between its read and its write.
unfoldable pub boot_succeeded : State → State
boot_succeeded s =
    let blessed = record s {
      rescue_booted_generation = none;
      rescue_exit_retry_in_progress = false;
      last_boot_succeeded = true;
      recovery_attempt = 0;
    } in
    if is_some s.unproven_generation && opt_eq s.unproven_generation s.last_attempted_generation
    then forget_unproven blessed
    else blessed

abbrev pub mark_new : State → ℕ → Option String → State
mark_new s active system = record s {
  unproven_generation = some active;
  unproven_failed = false;
  unproven_system = system;
}

-- The `match` on the two system paths, where the generation is already marked.
unfoldable pub remark : State → ℕ → Option String → Option String → State
remark s active (some marked) (some now) =
    if str_eq marked now then s else mark_new s active (some now)
remark s active none (some now) = record s { unproven_system = some now }
remark s active marked none = s

unfoldable pub apply_unproven_mark : State → ℕ → Option String → State
apply_unproven_mark s active system =
    if s.last_boot_succeeded && opt_eq s.last_attempted_generation (some active)
    then forget_unproven s
    else if in_ring active s.known_good_generations
    then s
    else if opt_eq s.unproven_generation (some active)
    then remark s active s.unproven_system system
    else mark_new s active system

-- `record_rescue_booted`
unfoldable pub rescue_booted : State → State
rescue_booted s = record s {
  rescue_booted_generation = (if s.last_boot_succeeded then none else s.last_attempted_generation);
  rescue_exit_retry_in_progress = false;
}

abbrev pub contains : ℕ → List ℕ → Bool
contains n available = any (λ m. m == n) available

abbrev pub may_retry : State → ℕ → List ℕ → Bool
may_retry s generation available =
    not s.last_boot_succeeded
    && opt_eq s.last_attempted_generation (some generation)
    && contains generation available

-- `take_rescue_exit_retry` where an authorization for `generation` is on disk.
unfoldable pub consume_retry : State → ℕ → List ℕ → State × Option ℕ
consume_retry s generation available =
    let taken = record s { rescue_booted_generation = none } in
    if may_retry s generation available
    then (record taken { rescue_exit_retry_in_progress = true }, some generation)
    else (taken, none)

-- `record_attempt`: `none` where it returns before the write.
unfoldable pub attempt : State → List Generation → ℕ → Option State
attempt s generations generation_index = elim (number_at generations generation_index) [
  | none ↦ none
  | some number ↦ elim (non_max_u32 number) [
    | none ↦ none
    | some n ↦ some (record s { last_attempted_generation = some n; last_boot_succeeded = false })
  ]
]

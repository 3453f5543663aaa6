-- ===== src/State/Decide.antt =====
-- state/decide.rs: the rollback decision. A `&mut State` is passed in and handed back.
use siratis_nmbl_bootloader.Prelude.{
  ℕ, zero, suc, Bool, true, false, ◌&&◌, ◌||◌, not, Option, none, some, List, [], ◌∷◌, ltb, leb,
  ◌==◌, opt_eq, is_some, if◌then◌else◌, length, get_or, set, any, position, drop, saturating_add,
  u32_max,
}
use siratis_nmbl_bootloader.State.Types.{
  State, StatefulDecision, honour_tui, force_pick, exhausted, Generation,
}

-- `generations.iter().position(|g| g.number == n)`
abbrev pub position_of : ℕ → List Generation → Option ℕ
position_of n generations = position (λ g. g.number == n) generations

-- `known_good_generations.iter().any(|slot| slot.map(|v| v.get()) == Some(n))`
abbrev pub in_ring : ℕ → List (Option ℕ) → Bool
in_ring n ring = any (λ slot. opt_eq slot (some n)) ring

-- `opt.filter(|n| Some(*n) != unproven)`
abbrev pub unless_unproven : Option ℕ → Option ℕ → Option ℕ
unless_unproven unproven none = none
unless_unproven unproven (some n) = if opt_eq (some n) unproven then none else some n

-- `slots.get(r).copied().flatten()`
abbrev pub slot_at : List (Option ℕ) → ℕ → Option ℕ
slot_at ring r = get_or ring r none

abbrev pub position_opt : Option ℕ → List Generation → Option ℕ
position_opt none generations = none
position_opt (some n) generations = position_of n generations

unfoldable pub ring_pick : State → List Generation → Option ℕ
ring_pick s generations =
    position_opt
      (unless_unproven s.unproven_generation (slot_at s.known_good_generations s.recovery_attempt))
      generations

abbrev pub skipped : State → ℕ → Bool
skipped s n =
    in_ring n s.known_good_generations
    || opt_eq s.last_attempted_generation (some n)
    || opt_eq s.unproven_generation (some n)

-- The `find_map` over `enumerate()`, from index `idx` on.
unfoldable pub walk_older : State → List Generation → ℕ → Option ℕ
walk_older s [] idx = none
walk_older s (g ∷ rest) idx =
    let later = walk_older s rest (suc idx) in if skipped s g.number then later else some idx

unfoldable pub pick_fallback : State → List Generation → ℕ → Option ℕ
pick_fallback s generations active_index = elim (ring_pick s generations) [
  | some idx ↦ some idx
  | none ↦ walk_older s (drop (suc active_index) generations) (suc active_index)
]

-- The `find_map` over the flattened ring.
unfoldable pub newest_known_good : ℕ → List (Option ℕ) → List Generation → Option ℕ
newest_known_good unproven [] generations = none
newest_known_good unproven (none ∷ ring) generations = newest_known_good unproven ring generations
newest_known_good unproven (some n ∷ ring) generations =
    let later = newest_known_good unproven ring generations in
    if n == unproven
    then later
    else elim (position_of n generations) [ some idx ↦ some idx | none ↦ later ]

abbrev pub number_at : List Generation → ℕ → Option ℕ
number_at [] i = none
number_at (g ∷ rest) zero = some g.number
number_at (g ∷ rest) (suc i) = number_at rest i

abbrev pub force_or_honour : Option ℕ → StatefulDecision
force_or_honour none = honour_tui
force_or_honour (some idx) = force_pick idx

unfoldable pub avoid_failed_unproven : State → List Generation → ℕ → StatefulDecision
avoid_failed_unproven s generations active_index = elim s.unproven_generation [
  | none ↦ honour_tui
  | some unproven ↦
      if not s.unproven_failed
      then honour_tui
      else if not (opt_eq (number_at generations active_index) (some unproven))
      then honour_tui
      else force_or_honour (newest_known_good unproven s.known_good_generations generations)
]

-- `for i in (1..=pos).rev() { ring[i] = ring[i - 1] }`
unfoldable pub shift_down : ℕ → List (Option ℕ) → List (Option ℕ)
shift_down zero ring = ring
shift_down (suc i) ring = shift_down i (set ring (suc i) (get_or ring i none))

-- `let len = ring.len(); for i in (1..len).rev() { … } ring[0] = Some(last)`
unfoldable pub push_front : ℕ → List (Option ℕ) → List (Option ℕ)
push_front n [] = []
push_front n (x ∷ ring) = set (shift_down (length ring) (x ∷ ring)) 0 (some n)

-- `let slot = ring[pos]; for i in (1..=pos).rev() { … } ring[0] = slot`
unfoldable pub promote : ℕ → List (Option ℕ) → List (Option ℕ)
promote pos ring = set (shift_down pos ring) 0 (get_or ring pos none)

unfoldable pub rotated_ring : ℕ → List (Option ℕ) → List Generation → ℕ → List (Option ℕ)
rotated_ring n ring generations active_index =
    if any (λ g. g.number == n) generations
    then elim (position (λ slot. opt_eq slot (some n)) ring) [
      | none ↦ push_front n ring
      | some pos ↦
          if opt_eq (some n) (number_at generations active_index) && ltb 0 pos
          then promote pos ring
          else ring
    ]
    else ring

unfoldable pub rotate_known_good : State → List Generation → ℕ → State
rotate_known_good s generations active_index = elim s.last_attempted_generation [
  | none ↦ s
  | some n ↦ record s {
    known_good_generations = rotated_ring n s.known_good_generations generations active_index;
  }
]

-- The failed boot was the unproven generation's: remember it.
unfoldable pub note_failed_unproven : State → State
note_failed_unproven s =
    if is_some s.unproven_generation && opt_eq s.last_attempted_generation s.unproven_generation
    then record s { unproven_failed = true }
    else s

abbrev pub spend : State → Option ℕ → StatefulDecision × State
spend s none = (exhausted, s)
spend s (some idx) =
    (force_pick idx, record s { recovery_attempt = saturating_add u32_max s.recovery_attempt 1 })

unfoldable pub decide : State → List Generation → ℕ → ℕ → StatefulDecision × State
decide s generations active_index max_recovery_attempts =
    if s.last_boot_succeeded
    then (let healthy = record (rotate_known_good s generations active_index) {
      recovery_attempt = 0;
    } in
        (avoid_failed_unproven healthy generations active_index, healthy))
    else if s.rescue_exit_retry_in_progress
    then (exhausted, s)
    else if not (is_some s.last_attempted_generation)
    then (honour_tui, s)
    else if leb max_recovery_attempts s.recovery_attempt
    then (exhausted, s)
    else (let noted = note_failed_unproven s in
        spend noted (pick_fallback noted generations active_index))

-- `NonMaxU32::new`
abbrev pub non_max_u32 : ℕ → Option ℕ
non_max_u32 n = if ltb n u32_max then some n else none

abbrev pub authorize : State → ℕ → Option ℕ → Option ℕ × State
authorize s number none = (none, s)
authorize s number (some index) = (
  some index,
  record s {
    rescue_booted_generation = none;
    rescue_exit_retry_in_progress = false;
    last_attempted_generation = some number;
    last_boot_succeeded = false;
  },
)

unfoldable pub record_operator_retry : State → List Generation → ℕ → Option ℕ × State
record_operator_retry s generations number =
    if is_some (non_max_u32 number) && ltb 0 number
    then authorize s number (position_of number generations)
    else (none, s)

unfoldable pub active_is_unproven : State → Option ℕ → Bool
active_is_unproven s active_profile = elim s.unproven_generation [
  | none ↦ false
  | some unproven ↦ elim active_profile [ none ↦ true | some n ↦ n == unproven ]
]

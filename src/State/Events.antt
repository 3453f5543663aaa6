-- ===== src/State/Events.antt =====
-- The events that change the boot state, as a step relation, and the invariant over every history.
use siratis_nmbl_bootloader.Prelude.{ℕ, String, ◌≡◌, Option, some, List}
use siratis_nmbl_bootloader.State.Types.{State, Generation}
use siratis_nmbl_bootloader.State.Decide.{decide, record_operator_retry}
use siratis_nmbl_bootloader.State.Mark.{
  boot_succeeded, apply_unproven_mark, rescue_booted, consume_retry, attempt,
}
use siratis_nmbl_bootloader.State.Lifecycle.{IsSound}
use siratis_nmbl_bootloader.State.Decided.{decide-IsSound, attempt-IsSound}
use siratis_nmbl_bootloader.State.Marked.{
  boot_succeeded-IsSound, apply_unproven_mark-IsSound, rescue_booted-IsSound, consume_retry-IsSound,
  record_operator_retry-IsSound,
}

-- What may happen to the boot state: a boot that decides and records the generation it boots, the
-- booted system's success, an installer's mark, a rescue, the retry after it, an operator's retry.
pub data Step : State → State → Type 0 where
  boot :
      {s t : State} (generations : List Generation) (active_index max index : ℕ)
      → attempt (decide s generations active_index max).1 generations index ≡ some t
      → Step s t
  succeed : {s : State} → Step s (boot_succeeded s)
  install : {s : State} (n : ℕ) (system : Option String) → Step s (apply_unproven_mark s n system)
  rescue : {s : State} → Step s (rescue_booted s)
  retry : {s : State} (n : ℕ) (available : List ℕ) → Step s (consume_retry s n available).0
  operator :
      {s : State} (generations : List Generation) (n : ℕ)
      → Step s (record_operator_retry s generations n).1

pub data Reach (s : State) : State → Type 0 where
  here : Reach s s
  next : {t u : State} → Reach s t → Step t u → Reach s u

Step-IsSound : {s t : State} → Step s t → IsSound s → IsSound t
Step-IsSound {s} {t} (boot gs a max i e) v =
    attempt-IsSound (decide s gs a max).1 t gs i (decide-IsSound s gs a max v) e
Step-IsSound {s} succeed v = boot_succeeded-IsSound s v
Step-IsSound {s} (install n system) v = apply_unproven_mark-IsSound s n system v
Step-IsSound {s} rescue v = rescue_booted-IsSound s v
Step-IsSound {s} (retry n available) v = consume_retry-IsSound s n available v
Step-IsSound {s} (operator gs n) v = record_operator_retry-IsSound s gs n v

-- A sound state stays sound through any history of boots, successes, installations, rescues and
-- retries: the ring is twenty slots of distinct generations without the unproven one, the counter is
-- a u32, a running retry means a failed boot, a failed mark means a marked generation, and a
-- generation that booted successfully is not unproven.
pub Reach-IsSound : {s t : State} → IsSound s → Reach s t → IsSound t
Reach-IsSound v here = v
Reach-IsSound v (next r e) = Step-IsSound e (Reach-IsSound v r)

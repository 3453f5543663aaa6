-- ===== src/State/Decided.antt =====
-- The invariant through the rollback decision and the record of an attempt.
use siratis_nmbl_bootloader.Prelude.{
  ℕ, ◌≡◌, refl, true, false, ◌&&◌, Option, none, some, List, arith, is_some, opt_eq, if_case,
  u32_max, saturating_add-le,
}
use siratis_nmbl_bootloader.State.Types.{State, Generation, StatefulDecision}
use siratis_nmbl_bootloader.State.Decide.{decide, number_at, note_failed_unproven, spend}
use siratis_nmbl_bootloader.State.Mark.{attempt}
use siratis_nmbl_bootloader.State.Lifecycle.{IsSound, healthy_state-IsSound}
use siratis_nmbl_bootloader.State.Rollback.{
  Decided, decided, healthy, retry_failed, never_tried, over_budget, fell_back,
}

noted-IsSound :
    (s : State)
    → is_some s.unproven_generation ≡ true
    → IsSound s
    → IsSound (record s { unproven_failed = true })
noted-IsSound s some_unproven v = record {
  ring = v.ring;
  bounded = v.bounded;
  retry_failed = v.retry_failed;
  marked = λ _. some_unproven;
  proven_boot = v.proven_boot;
  untrusted = v.untrusted;
}

note-IsSound : (s : State) → IsSound s → IsSound (note_failed_unproven s)
unfolding note_failed_unproven
note-IsSound s v =
    if_case IsSound
      (is_some s.unproven_generation && opt_eq s.last_attempted_generation s.unproven_generation)
      (λ both. noted-IsSound s (ground arith) v) (λ _. v)

spend-IsSound : (s : State) (o : Option ℕ) → IsSound s → IsSound (spend s o).1
spend-IsSound s none v = v
spend-IsSound s (some i) v = record {
  ring = v.ring;
  bounded = saturating_add-le u32_max s.recovery_attempt 1;
  retry_failed = v.retry_failed;
  marked = v.marked;
  proven_boot = v.proven_boot;
  untrusted = v.untrusted;
}

Decided-IsSound :
    {s : State} {generations : List Generation} {active_index max : ℕ}
    {out : StatefulDecision × State}
    → IsSound s
    → Decided s generations active_index max out
    → IsSound out.1
Decided-IsSound {s} {generations = gs} {active_index = a} v (healthy ok) =
    healthy_state-IsSound s gs a ok v
Decided-IsSound v (retry_failed f r) = v
Decided-IsSound v (never_tried f r t) = v
Decided-IsSound v (over_budget f r t b) = v
Decided-IsSound {s} v (fell_back f r t b o e) =
    spend-IsSound (note_failed_unproven s) o (note-IsSound s v)

-- The rollback decision keeps the invariant, whatever it decides.
pub decide-IsSound :
    (s : State) (generations : List Generation) (active_index max : ℕ)
    → IsSound s
    → IsSound (decide s generations active_index max).1
decide-IsSound s gs a max v = Decided-IsSound v (decided s gs a max)

attempted : State → ℕ → State
attempted s n = record s { last_attempted_generation = some n; last_boot_succeeded = false }

attempted-IsSound : (s : State) (n : ℕ) → IsSound s → IsSound (attempted s n)
unfolding attempted
attempted-IsSound s n v = record {
  ring = v.ring;
  bounded = v.bounded;
  retry_failed = λ _. refl;
  marked = v.marked;
  proven_boot = λ h. absurd (cc);
  untrusted = v.untrusted;
}

attempt-some :
    (s s' : State) (generations : List Generation) (index : ℕ)
    → attempt s generations index ≡ some s'
    → (n : ℕ) × (number_at generations index ≡ some n) × (s' ≡ attempted s n)
unfolding attempt attempted
attempt-some s s' gs i h = ground arith

pub attempt-IsSound :
    (s s' : State) (generations : List Generation) (index : ℕ)
    → IsSound s
    → attempt s generations index ≡ some s'
    → IsSound s'
attempt-IsSound s s' gs i v h =
    let (n, at, e) = attempt-some s s' gs i h in rw e (attempted-IsSound s n v)

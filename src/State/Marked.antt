-- ===== src/State/Marked.antt =====
-- The invariant through state/mark.rs, the rescue markers and an operator's retry.
use siratis_nmbl_bootloader.Prelude.{
  ℕ, String, ◌≡◌, refl, true, false, ◌&&◌, Option, none, some, List, arith, ltb, str_eq, is_some,
  opt_eq, opt_eq_iff, if_case,
}
use siratis_nmbl_bootloader.State.Types.{State, Generation}
use siratis_nmbl_bootloader.State.Decide.{
  in_ring, non_max_u32, record_operator_retry, authorize, position_of,
}
use siratis_nmbl_bootloader.State.Mark.{
  boot_succeeded, apply_unproven_mark, rescue_booted, consume_retry, remark, mark_new,
  forget_unproven, may_retry,
}
use siratis_nmbl_bootloader.State.Lifecycle.{IsSound, in_ring-occurrences}

forget_unproven-IsSound : (s : State) → IsSound s → IsSound (forget_unproven s)
forget_unproven-IsSound s v = record {
  ring = v.ring;
  bounded = v.bounded;
  retry_failed = v.retry_failed;
  marked = λ h. absurd (cc);
  proven_boot = λ _ h. absurd (cc);
  untrusted = refl;
}

-- The state that `boot_succeeded` starts from, with the unproven generation as it was.
abbrev blessed : State → State
blessed s = record s {
  rescue_booted_generation = none;
  rescue_exit_retry_in_progress = false;
  last_boot_succeeded = true;
  recovery_attempt = 0;
}

blessed-IsSound :
    (s : State)
    → (is_some s.unproven_generation && opt_eq s.unproven_generation s.last_attempted_generation)
      ≡ false
    → IsSound s
    → IsSound (blessed s)
blessed-IsSound s other v = record {
  ring = v.ring;
  bounded = omega arith;
  retry_failed = λ h. absurd (cc);
  marked = v.marked;
  proven_boot = λ _ h. ground (
    arith,
    opt_eq_iff s.last_attempted_generation s.unproven_generation,
    opt_eq_iff s.unproven_generation s.last_attempted_generation,
  );
  untrusted = v.untrusted;
}

proven-IsSound : (s : State) → IsSound s → IsSound (forget_unproven (blessed s))
proven-IsSound s v = record {
  ring = v.ring;
  bounded = omega arith;
  retry_failed = λ h. absurd (cc);
  marked = λ h. absurd (cc);
  proven_boot = λ _ h. absurd (cc);
  untrusted = refl;
}

pub boot_succeeded-IsSound : (s : State) → IsSound s → IsSound (boot_succeeded s)
unfolding boot_succeeded
boot_succeeded-IsSound s v =
    if_case IsSound
      (is_some s.unproven_generation && opt_eq s.unproven_generation s.last_attempted_generation)
      (λ both. proven-IsSound s v) (λ other. blessed-IsSound s other v)

mark_new-IsSound :
    (s : State) (n : ℕ) (system : Option String)
    → IsSound s
    → (s.last_boot_succeeded && opt_eq s.last_attempted_generation (some n)) ≡ false
    → in_ring n s.known_good_generations ≡ false
    → IsSound (mark_new s n system)
mark_new-IsSound s n system v other out = record {
  ring = v.ring;
  bounded = v.bounded;
  retry_failed = v.retry_failed;
  marked = λ h. absurd (cc);
  proven_boot = λ ok _. ground arith;
  untrusted = in_ring-occurrences n s.known_good_generations out;
}

remark-IsSound :
    (s : State) (n : ℕ) (marked now : Option String)
    → IsSound s
    → (s.last_boot_succeeded && opt_eq s.last_attempted_generation (some n)) ≡ false
    → in_ring n s.known_good_generations ≡ false
    → IsSound (remark s n marked now)
unfolding remark
remark-IsSound s n (some m) (some now) v other out =
    if_case IsSound (str_eq m now) (λ _. v) (λ _. mark_new-IsSound s n (some now) v other out)
remark-IsSound s n none (some now) v other out = record {
  ring = v.ring;
  bounded = v.bounded;
  retry_failed = v.retry_failed;
  marked = v.marked;
  proven_boot = v.proven_boot;
  untrusted = v.untrusted;
}
remark-IsSound s n (some m) none v other out = v
remark-IsSound s n none none v other out = v

pub apply_unproven_mark-IsSound :
    (s : State) (n : ℕ) (system : Option String)
    → IsSound s
    → IsSound (apply_unproven_mark s n system)
unfolding apply_unproven_mark
apply_unproven_mark-IsSound s n system v =
    if_case IsSound (s.last_boot_succeeded && opt_eq s.last_attempted_generation (some n))
      (λ same. forget_unproven-IsSound s v)
      λ other.
        if_case IsSound (in_ring n s.known_good_generations) (λ _. v)
          λ out.
            if_case IsSound (opt_eq s.unproven_generation (some n))
              (λ _. remark-IsSound s n s.unproven_system system v other out)
              (λ _. mark_new-IsSound s n system v other out)

pub rescue_booted-IsSound : (s : State) → IsSound s → IsSound (rescue_booted s)
unfolding rescue_booted
rescue_booted-IsSound s v = record {
  ring = v.ring;
  bounded = v.bounded;
  retry_failed = λ h. absurd (cc);
  marked = v.marked;
  proven_boot = v.proven_boot;
  untrusted = v.untrusted;
}

pub consume_retry-IsSound :
    (s : State) (n : ℕ) (available : List ℕ) → IsSound s → IsSound (consume_retry s n available).0
unfolding consume_retry
consume_retry-IsSound s n available v =
    if_case (λ (r : State × Option ℕ). IsSound r.0) (may_retry s n available)
      (λ may. record {
        ring = v.ring;
        bounded = v.bounded;
        retry_failed = λ _. ground arith;
        marked = v.marked;
        proven_boot = v.proven_boot;
        untrusted = v.untrusted;
      })
      (λ _. record {
        ring = v.ring;
        bounded = v.bounded;
        retry_failed = v.retry_failed;
        marked = v.marked;
        proven_boot = v.proven_boot;
        untrusted = v.untrusted;
      })

authorize-IsSound : (s : State) (n : ℕ) (o : Option ℕ) → IsSound s → IsSound (authorize s n o).1
authorize-IsSound s n none v = v
authorize-IsSound s n (some i) v = record {
  ring = v.ring;
  bounded = v.bounded;
  retry_failed = λ h. absurd (cc);
  marked = v.marked;
  proven_boot = λ h. absurd (cc);
  untrusted = v.untrusted;
}

pub record_operator_retry-IsSound :
    (s : State) (generations : List Generation) (n : ℕ)
    → IsSound s
    → IsSound (record_operator_retry s generations n).1
unfolding record_operator_retry
record_operator_retry-IsSound s gs n v =
    if_case (λ (r : Option ℕ × State). IsSound r.1) (is_some (non_max_u32 n) && ltb 0 n)
      (λ _. authorize-IsSound s n (position_of n gs) v) (λ _. v)

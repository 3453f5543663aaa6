-- ===== src/State/Lifecycle.antt =====
-- The life of the boot state over any sequence of boots, installer runs and rescues: what every
-- event of state/*.rs and main_parts/stateful.rs keeps.
use siratis_nmbl_bootloader.Prelude.{
  ℕ, zero, suc, ◌≤◌, ◌≡◌, refl, true, false, Option, none, some, List, [], ◌∷◌, arith, is_some,
  opt_eq, u32_max, replicate,
}
use siratis_nmbl_bootloader.State.Types.{State, Generation, default_state, ring_len}
use siratis_nmbl_bootloader.State.Decide.{in_ring, rotate_known_good, rotated_ring}
use siratis_nmbl_bootloader.State.Ring.{Slots, IsRing, occurrences}
use siratis_nmbl_bootloader.State.Rotation.{rotated_ring-IsRing, rotated_ring-occurrences}
use siratis_nmbl_bootloader.State.Rollback.{healthy_state}

-- How many slots of the ring the unproven generation has.
abbrev unproven_slots : Option ℕ → Slots → ℕ
unproven_slots none ring = 0
unproven_slots (some u) ring = occurrences u ring

-- What holds of the boot state between two events.
pub record IsSound (s : State) : Type 0 where
  pub ring : IsRing s.known_good_generations
  pub bounded : s.recovery_attempt ≤ u32_max
  pub retry_failed : s.rescue_exit_retry_in_progress ≡ true → s.last_boot_succeeded ≡ false
  pub marked : s.unproven_failed ≡ true → is_some s.unproven_generation ≡ true
  -- A generation that booted successfully is not unproven,
  pub proven_boot :
      s.last_boot_succeeded ≡ true
      → is_some s.unproven_generation ≡ true
      → opt_eq s.last_attempted_generation s.unproven_generation ≡ false
  -- and an unproven one is not in the ring.
  pub untrusted : unproven_slots s.unproven_generation s.known_good_generations ≡ 0

once_empty : (n : ℕ) (k : ℕ) → occurrences n (replicate k none) ≡ 0
once_empty n zero = refl
once_empty n (suc k) = omega (arith, once_empty n k)

pub default_state-IsSound : IsSound default_state
default_state-IsSound = record {
  ring = record { size = refl; once = λ n. omega (arith, once_empty n ring_len) };
  bounded = omega arith;
  retry_failed = λ h. absurd (cc);
  marked = λ h. absurd (cc);
  proven_boot = λ _ h. absurd (cc);
  untrusted = refl;
}

pub in_ring-occurrences : (n : ℕ) (ring : Slots) → in_ring n ring ≡ false → occurrences n ring ≡ 0
in_ring-occurrences n [] h = refl
in_ring-occurrences n (x ∷ ring) h = ground (arith, in_ring-occurrences n ring)

-- Where nothing but the flags that the proofs of the fields read has changed.
unproven_slots-rotated :
    (u : Option ℕ) (n : ℕ) (ring : Slots) (generations : List Generation) (active : ℕ)
    → IsRing ring
    → opt_eq (some n) u ≡ false
    → unproven_slots u ring ≡ 0
    → unproven_slots u (rotated_ring n ring generations active) ≡ 0
unproven_slots-rotated none n ring gs a v ne z = refl
unproven_slots-rotated (some u) n ring gs a v ne z =
    let (_, only) = rotated_ring-occurrences n ring gs a v u in
    omega (arith, only (λ e. ground arith))

pub healthy_state-IsSound :
    (s : State) (generations : List Generation) (active_index : ℕ)
    → s.last_boot_succeeded ≡ true
    → IsSound s
    → IsSound (healthy_state s generations active_index)
unfolding rotate_known_good
healthy_state-IsSound s gs a ok v = go s.last_attempted_generation refl
  where
    go :
        (last : Option ℕ)
        → s.last_attempted_generation ≡ last
        → IsSound
            (record (elim last [
              | none ↦ s
              | some n ↦ record s {
                known_good_generations = rotated_ring n s.known_good_generations gs a;
              }
            ]) { recovery_attempt = 0 })
    go none e = record {
      ring = v.ring;
      bounded = omega arith;
      retry_failed = v.retry_failed;
      marked = v.marked;
      proven_boot = v.proven_boot;
      untrusted = v.untrusted;
    }
    go (some n) e = record {
      ring = rotated_ring-IsRing n s.known_good_generations gs a v.ring;
      bounded = omega arith;
      retry_failed = v.retry_failed;
      marked = v.marked;
      proven_boot = v.proven_boot;
      untrusted = fresh s.unproven_generation refl;
    }
      where
        fresh :
            (u : Option ℕ)
            → s.unproven_generation ≡ u
            → unproven_slots s.unproven_generation (rotated_ring n s.known_good_generations gs a)
              ≡ 0
        fresh none f = rw f
        fresh (some u) f =
            unproven_slots-rotated s.unproven_generation n s.known_good_generations gs a v.ring
              (ground (arith, v.proven_boot ok)) v.untrusted

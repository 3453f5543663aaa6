-- ===== src/State/Picked.antt =====
-- Which generation `pick_fallback` of state/decide.rs settles on.
use siratis_nmbl_bootloader.Prelude.{
  ℕ, zero, suc, ◌+◌, ◌-◌, ◌<◌, ◌≡◌, refl, sym, ap, ◌∙◌, ◌≢◌, ◌⊎◌, inl, inr, Option, none, some,
  List, [], ◌∷◌, arith, opt_eq, opt_eq_iff, Bool-cases, get_elem?, drop,
}
use siratis_nmbl_bootloader.State.Types.{State, Generation}
use siratis_nmbl_bootloader.State.Decide.{
  position_of, unless_unproven, slot_at, position_opt, ring_pick, walk_older, pick_fallback,
  number_at,
}
use siratis_nmbl_bootloader.State.Fallback.{
  number_at-position_of, number_at-drop, IsSkipped, skipped_iff, IsFirst, walk_older-some,
  walk_older-none, WalkTo-IsFirst,
}

-- The first index is chosen.
position_of-first :
    (n i j : ℕ) (generations : List Generation)
    → position_of n generations ≡ some j
    → i < j
    → number_at generations i ≢ some n
position_of-first n i j [] h lt = absurd (cc)
position_of-first n zero zero (g ∷ gs) h lt = absurd (omega arith)
position_of-first n zero (suc j) (g ∷ gs) h lt = λ e. ground arith
position_of-first n (suc i) zero (g ∷ gs) h lt = absurd (omega arith)
position_of-first n (suc i) (suc j) (g ∷ gs) h lt =
    position_of-first n i j gs (ground arith) (omega arith)

position_of-none :
    (n i : ℕ) (generations : List Generation)
    → position_of n generations ≡ none
    → number_at generations i ≢ some n
position_of-none n i [] h = λ e. cc
position_of-none n zero (g ∷ gs) h = λ e. ground arith
position_of-none n (suc i) (g ∷ gs) h = position_of-none n i gs (ground arith)

-- `j` is the first index of the generation in the ring slot that the attempts so far point at, and that
-- generation is not the unproven one.
pub record IsRingPick (s : State) (generations : List Generation) (j : ℕ) : Type 0 where
  pub number : ℕ
  pub slot : get_elem? s.known_good_generations s.recovery_attempt ≡ some (some number)
  pub proven : s.unproven_generation ≢ some number
  pub found : number_at generations j ≡ some number
  pub earliest : (i : ℕ) → i < j → number_at generations i ≢ some number

-- A generation in that slot is the unproven one or not on disk.
abbrev pub NoRingPick : State → List Generation → Type 0
NoRingPick s generations =
    (n : ℕ)
    → get_elem? s.known_good_generations s.recovery_attempt ≡ some (some n)
    → (s.unproven_generation ≡ some n) ⊎ ((i : ℕ) → number_at generations i ≢ some n)

slot_at-some :
    (ring : List (Option ℕ)) (i n : ℕ) → slot_at ring i ≡ some n → get_elem? ring i ≡ some (some n)
slot_at-some [] i n h = absurd (cc)
slot_at-some (x ∷ ring) zero n h = ap some h
slot_at-some (x ∷ ring) (suc i) n h = slot_at-some ring i n h

slot_at-of_some :
    (ring : List (Option ℕ)) (i n : ℕ) → get_elem? ring i ≡ some (some n) → slot_at ring i ≡ some n
slot_at-of_some [] i n h = absurd (cc)
slot_at-of_some (x ∷ ring) zero n h = ground arith
slot_at-of_some (x ∷ ring) (suc i) n h = slot_at-of_some ring i n h

ring_pick-IsRingPick :
    (s : State) (generations : List Generation) (j : ℕ)
    → ring_pick s generations ≡ some j
    → IsRingPick s generations j
unfolding ring_pick
ring_pick-IsRingPick s gs j h = go (slot_at s.known_good_generations s.recovery_attempt) refl h
  where
    go :
        (o : Option ℕ)
        → slot_at s.known_good_generations s.recovery_attempt ≡ o
        → position_opt (unless_unproven s.unproven_generation o) gs ≡ some j
        → IsRingPick s gs j
    go none e p = absurd (cc)
    go (some n) e p = elim (Bool-cases (opt_eq (some n) s.unproven_generation)) [
      | inl same ↦ absurd (cc (rw same at p))
      | inr differs ↦
          let at : position_of n gs ≡ some j = (rw differs at p) in
          record {
            number = n;
            slot = slot_at-some s.known_good_generations s.recovery_attempt n e;
            proven = λ u. ground (arith, opt_eq_iff (some n) s.unproven_generation);
            found = number_at-position_of n j gs at;
            earliest = λ i lt. position_of-first n i j gs at lt;
          }
    ]

ring_pick-NoRingPick :
    (s : State) (generations : List Generation)
    → ring_pick s generations ≡ none
    → NoRingPick s generations
unfolding ring_pick
ring_pick-NoRingPick s gs h n slot =
    let p : position_opt (unless_unproven s.unproven_generation (some n)) gs ≡ none =
      (rw (slot_at-of_some s.known_good_generations s.recovery_attempt n slot) at h) in
    elim (Bool-cases (opt_eq (some n) s.unproven_generation)) [
      | inl same ↦ inl (sym ((opt_eq_iff (some n) s.unproven_generation).0 same))
      | inr differs ↦ inr (λ i. position_of-none n i gs (rw differs at p))
    ]

-- What the choice of a fallback means, for each result.
abbrev pub Picked : State → List Generation → ℕ → Option ℕ → Type 0
Picked s generations active_index (some j) =
    IsRingPick s generations j
    ⊎ (NoRingPick s generations × IsFirst s generations (suc active_index) j)
Picked s generations active_index none =
    NoRingPick s generations
    × ((i n : ℕ) → active_index < i → number_at generations i ≡ some n → IsSkipped s n)

-- A fallback is the first generation on disk with the number in the ring slot that recovery_attempt
-- points at, where that number is not the unproven one's. Where there is no such generation, it is the
-- first one behind the active generation that is not in the ring, not the last attempt and not
-- unproven; and there is none only where every generation behind the active one is one of these.
pub pick_fallback-Picked :
    (s : State) (generations : List Generation) (active_index : ℕ)
    → Picked s generations active_index (pick_fallback s generations active_index)
unfolding pick_fallback
pick_fallback-Picked s gs a = go (ring_pick s gs) refl
  where
    walked :
        (o : Option ℕ)
        → walk_older s (drop (suc a) gs) (suc a) ≡ o
        → NoRingPick s gs
        → Picked s gs a o
    walked (some j) w unpicked =
        inr (unpicked, WalkTo-IsFirst (walk_older-some s (drop (suc a) gs) (suc a) j w))
    walked none w unpicked = (
      unpicked,
      λ i n lt at.
          let f : suc a + (i - suc a) ≡ i = omega arith in
          (skipped_iff s n).0 (
            walk_older-none s (drop (suc a) gs) (suc a) (i - suc a) n w
              (number_at-drop (suc a) (i - suc a) gs ∙ ap (number_at gs) f ∙ at)),
    )

    go :
        (o : Option ℕ)
        → ring_pick s gs ≡ o
        → Picked s gs a
            (elim o [ some idx ↦ some idx | none ↦ walk_older s (drop (suc a) gs) (suc a) ])
    go (some j) e = inl (ring_pick-IsRingPick s gs j e)
    go none e = walked (walk_older s (drop (suc a) gs) (suc a)) refl (ring_pick-NoRingPick s gs e)

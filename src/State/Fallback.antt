-- ===== src/State/Fallback.antt =====
-- The walk to older generations of `pick_fallback` in state/decide.rs.
use siratis_nmbl_bootloader.Prelude.{
  ℕ, zero, suc, ◌+◌, ◌-◌, ◌≤◌, ◌<◌, ◌≡◌, refl, sym, ap, subst, ◌∙◌, ◌↔◌, ◌⊎◌, inl, inr, true, false,
  Option, none, some, List, [], ◌∷◌, arith, opt_eq, opt_eq_iff, Bool-cases, drop, Mem, any_iff,
}
use siratis_nmbl_bootloader.State.Types.{State, Generation}
use siratis_nmbl_bootloader.State.Decide.{position_of, in_ring, skipped, walk_older, number_at}

pub number_at-position_of :
    (n i : ℕ) (generations : List Generation)
    → position_of n generations ≡ some i
    → number_at generations i ≡ some n
number_at-position_of n i [] h = cc
number_at-position_of n zero (g ∷ gs) h = ground arith
number_at-position_of n (suc i) (g ∷ gs) h = ground (arith, number_at-position_of n i gs)

pub number_at-drop :
    (k i : ℕ) (generations : List Generation)
    → number_at (drop k generations) i ≡ number_at generations (k + i)
number_at-drop zero i gs = ap (number_at gs) (omega arith)
number_at-drop (suc k) i [] = refl
number_at-drop (suc k) i (g ∷ gs) =
    number_at-drop k i gs ∙ let e : suc k + i ≡ suc (k + i) = omega arith in rw e

-- A generation that the walk leaves out: in the ring, attempted last or unproven.
abbrev pub IsSkipped : State → ℕ → Type 0
IsSkipped s n =
    Mem (some n) s.known_good_generations
    ⊎ (s.last_attempted_generation ≡ some n)
    ⊎ (s.unproven_generation ≡ some n)

in_ring_iff : (n : ℕ) (ring : List (Option ℕ)) → (in_ring n ring ≡ true) ↔ Mem (some n) ring
in_ring_iff n ring = (
  λ h.
      let (slot, m, e) = (any_iff (λ slot. opt_eq slot (some n)) ring).0 h in
      subst (λ o. Mem o ring) ((opt_eq_iff slot (some n)).0 e) m,
  λ m.
      (any_iff (λ slot. opt_eq slot (some n)) ring).1
        (some n, m, (opt_eq_iff (some n) (some n)).1 refl),
)

pub skipped_iff : (s : State) (n : ℕ) → (skipped s n ≡ true) ↔ IsSkipped s n
skipped_iff s n = (there, back)
  where
    there : skipped s n ≡ true → IsSkipped s n
    there h = elim (Bool-cases (in_ring n s.known_good_generations)) [
      | inl a ↦ inl ((in_ring_iff n s.known_good_generations).0 a)
      | inr a ↦ elim (Bool-cases (opt_eq s.last_attempted_generation (some n))) [
        | inl b ↦ inr (inl ((opt_eq_iff s.last_attempted_generation (some n)).0 b))
        | inr b ↦ inr (inr ((opt_eq_iff s.unproven_generation (some n)).0 (ground arith)))
      ]
    ]

    back : IsSkipped s n → skipped s n ≡ true
    back (inl a) = ground (arith, (in_ring_iff n s.known_good_generations).1 a)
    back (inr (inl b)) = ground (arith, (opt_eq_iff s.last_attempted_generation (some n)).1 b)
    back (inr (inr c)) = ground (arith, (opt_eq_iff s.unproven_generation (some n)).1 c)

not_skipped : (s : State) (n : ℕ) → skipped s n ≡ false → ¬ IsSkipped s n
not_skipped s n h k = let e : true ≡ false = sym ((skipped_iff s n).1 k) ∙ h in cc

-- `j` is the first index from `start` on whose generation is not skipped.
pub record IsFirst (s : State) (generations : List Generation) (start j : ℕ) : Type 0 where
  pub from_start : start ≤ j
  pub number : ℕ
  pub found : number_at generations j ≡ some number
  pub wanted : ¬ IsSkipped s number
  pub before : (i n : ℕ) → start ≤ i → i < j → number_at generations i ≡ some n → IsSkipped s n

-- The same for the rest of the list that the walk is at, whose first index is `idx`.
pub record WalkTo (s : State) (rest : List Generation) (idx j : ℕ) : Type 0 where
  far : idx ≤ j
  number : ℕ
  found : number_at rest (j - idx) ≡ some number
  wanted : skipped s number ≡ false
  before : (i n : ℕ) → i < j - idx → number_at rest i ≡ some n → skipped s n ≡ true

walk_older-tail :
    {s : State} {rest : List Generation} {idx j : ℕ} (g : Generation)
    → skipped s g.number ≡ true
    → WalkTo s rest (suc idx) j
    → WalkTo s (g ∷ rest) idx j
walk_older-tail {s} {rest} {idx} {j} g skip w =
    let e : j - idx ≡ suc (j - suc idx) = omega (arith, w.far) in
    record {
      far = omega (arith, w.far);
      number = w.number;
      found = rw e w.found;
      wanted = w.wanted;
      before = earlier e;
    }
  where
    earlier :
        j - idx ≡ suc (j - suc idx)
        → (i n : ℕ) → i < j - idx
        → number_at (g ∷ rest) i ≡ some n
        → skipped s n ≡ true
    earlier e zero n h at = ground arith
    earlier e (suc i) n h at = w.before i n (omega arith) at

pub walk_older-some :
    (s : State) (rest : List Generation) (idx j : ℕ)
    → walk_older s rest idx ≡ some j
    → WalkTo s rest idx j
unfolding walk_older
walk_older-some s [] idx j h = absurd (cc)
walk_older-some s (g ∷ rest) idx j h = elim (Bool-cases (skipped s g.number)) [
  | inl skip ↦ walk_older-tail g skip (walk_older-some s rest (suc idx) j (rw skip at h))
  | inr want ↦ here want (ground arith)
]
  where
    here : skipped s g.number ≡ false → idx ≡ j → WalkTo s (g ∷ rest) idx j
    here want e =
        let z : j - idx ≡ 0 = omega arith in
        record {
          far = omega arith;
          number = g.number;
          found = rw z;
          wanted = want;
          before = λ i n h at. absurd (omega arith);
        }

pub walk_older-none :
    (s : State) (rest : List Generation) (idx i n : ℕ)
    → walk_older s rest idx ≡ none
    → number_at rest i ≡ some n
    → skipped s n ≡ true
unfolding walk_older
walk_older-none s [] idx i n h at = cc
walk_older-none s (g ∷ rest) idx zero n h at = ground arith
walk_older-none s (g ∷ rest) idx (suc i) n h at =
    ground (arith, walk_older-none s rest (suc idx) i n)

pub WalkTo-IsFirst :
    {s : State} {generations : List Generation} {start j : ℕ}
    → WalkTo s (drop start generations) start j
    → IsFirst s generations start j
WalkTo-IsFirst {s} {generations} {start} {j} w =
    let e : start + (j - start) ≡ j = omega (arith, w.far) in
    record {
      from_start = w.far;
      number = w.number;
      found =
          ap (number_at generations) (sym e)
          ∙ sym (number_at-drop start (j - start) generations)
          ∙ w.found;
      wanted = not_skipped s w.number w.wanted;
      before = λ i n lo hi at.
          let f : start + (i - start) ≡ i = omega arith in
          (skipped_iff s n).0 (
            w.before (i - start) n (omega arith)
              (number_at-drop start (i - start) generations ∙ ap (number_at generations) f ∙ at));
    }

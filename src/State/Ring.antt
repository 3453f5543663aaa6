-- ===== src/State/Ring.antt =====
-- The known-good ring of state/decide.rs: the shifting loops against list surgery, and what a
-- rotation keeps. `occurrences` counts a generation's slots.
use siratis_nmbl_bootloader.Prelude.{
  ℕ, zero, suc, ◌+◌, ◌≤◌, ◌<◌, ◌≡◌, refl, ap, Bool, Option, none, some, List, [], ◌∷◌, ◌++◌, arith,
  opt_eq, opt_eq_iff, if◌then◌else◌, length, get_or, set, position, take, drop, length-append,
  length-take, length-drop, length-set,
}
use siratis_nmbl_bootloader.State.Types.{ring_len}
use siratis_nmbl_bootloader.State.Decide.{shift_down, push_front, promote}

abbrev pub Slots : Type 0
Slots = List (Option ℕ)

take-set : (j i : ℕ) (xs : Slots) (v : Option ℕ) → j ≤ i → take j (set xs i v) ≡ take j xs
take-set zero i xs v h = refl
take-set (suc j) i [] v h = refl
take-set (suc j) zero (x ∷ xs) v h = absurd (omega arith)
take-set (suc j) (suc i) (x ∷ xs) v h = ap (λ t. x ∷ t) (take-set j i xs v (omega arith))

drop-set :
    (i : ℕ) (xs : Slots) (v : Option ℕ) → i < length xs → drop i (set xs i v) ≡ v ∷ drop (suc i) xs
drop-set i [] v h = absurd (omega arith)
drop-set zero (x ∷ xs) v h = refl
drop-set (suc i) (x ∷ xs) v h = drop-set i xs v (omega arith)

take_snoc :
    (i : ℕ) (ys r : Slots)
    → i < length ys
    → take i ys ++ (get_or ys i none ∷ r) ≡ take (suc i) ys ++ r
take_snoc i [] r h = absurd (omega arith)
take_snoc zero (y ∷ ys) r h = refl
take_snoc (suc i) (y ∷ ys) r h = ap (λ t. y ∷ t) (take_snoc i ys r (omega arith))

take-cons-set :
    (i : ℕ) (x : Option ℕ) (xs : Slots) (v : Option ℕ) → take i (x ∷ set xs i v) ≡ take i (x ∷ xs)
take-cons-set zero x xs v = refl
take-cons-set (suc i) x xs v = ap (λ t. x ∷ t) (take-set i (suc i) xs v (omega arith))

-- The loop moves the first `i` slots one place down, over slot `i`.
shift_down_lem :
    (i : ℕ) (x : Option ℕ) (xs : Slots)
    → i ≤ length xs
    → shift_down i (x ∷ xs) ≡ x ∷ (take i (x ∷ xs) ++ drop i xs)
unfolding shift_down
shift_down_lem zero x xs h = refl
shift_down_lem (suc i) x xs h =
    let v = get_or (x ∷ xs) i none in
    rw (shift_down_lem i x (set xs i v) (omega (arith, length-set xs i v))) (
      rw (take-cons-set i x xs v, drop-set i xs v (omega arith))
        (ap (λ t. x ∷ t) (take_snoc i (x ∷ xs) (drop (suc i) xs) (omega arith))))

pub promote_lem :
    (pos : ℕ) (ring : Slots)
    → pos < length ring
    → promote pos ring ≡ get_or ring pos none ∷ (take pos ring ++ drop (suc pos) ring)
unfolding promote
promote_lem pos [] h = absurd (omega arith)
promote_lem pos (x ∷ xs) h = rw (shift_down_lem pos x xs (omega arith)) refl

drop_all : (xs : Slots) → drop (length xs) xs ≡ []
drop_all [] = refl
drop_all (x ∷ xs) = drop_all xs

append_nil : (xs : Slots) → xs ++ [] ≡ xs
append_nil [] = refl
append_nil (x ∷ xs) = ap (λ t. x ∷ t) (append_nil xs)

pub push_front_lem :
    (n : ℕ) (x : Option ℕ) (xs : Slots) → push_front n (x ∷ xs) ≡ some n ∷ take (length xs) (x ∷ xs)
unfolding push_front
push_front_lem n x xs =
    rw (shift_down_lem (length xs) x xs (omega arith))
      (rw (drop_all xs, append_nil (take (length xs) (x ∷ xs))) refl)

abbrev pub tally : Option ℕ → ℕ → ℕ
tally slot n = if opt_eq slot (some n) then 1 else 0

-- In how many slots a generation stands.
abbrev pub occurrences : ℕ → Slots → ℕ
occurrences n [] = 0
occurrences n (slot ∷ ring) = tally slot n + occurrences n ring

occurrences-append :
    (n : ℕ) (xs ys : Slots) → occurrences n (xs ++ ys) ≡ occurrences n xs + occurrences n ys
occurrences-append n [] ys = omega arith
occurrences-append n (x ∷ xs) ys = omega (arith, occurrences-append n xs ys)

pub occurrences-take-le : (n k : ℕ) (xs : Slots) → occurrences n (take k xs) ≤ occurrences n xs
occurrences-take-le n zero xs = omega arith
occurrences-take-le n (suc k) [] = omega arith
occurrences-take-le n (suc k) (x ∷ xs) = omega (arith, occurrences-take-le n k xs)

occurrences_split :
    (n pos : ℕ) (ring : Slots)
    → pos < length ring
    → tally (get_or ring pos none) n
        + (occurrences n (take pos ring) + occurrences n (drop (suc pos) ring))
      ≡ occurrences n ring
occurrences_split n pos [] h = absurd (omega arith)
occurrences_split n zero (x ∷ xs) h = omega arith
occurrences_split n (suc pos) (x ∷ xs) h = omega (arith, occurrences_split n pos xs (omega arith))

pub occurrences-promote :
    (n pos : ℕ) (ring : Slots)
    → pos < length ring
    → occurrences n (promote pos ring) ≡ occurrences n ring
occurrences-promote n pos ring h = rw (promote_lem pos ring h) (
    omega (
      arith,
      occurrences-append n (take pos ring) (drop (suc pos) ring),
      occurrences_split n pos ring h,
    ))

pub length-promote :
    (pos : ℕ) (ring : Slots) → pos < length ring → length (promote pos ring) ≡ length ring
length-promote pos ring h = rw (promote_lem pos ring h) (
    omega (
      arith,
      length-append (take pos ring) (drop (suc pos) ring),
      length-take pos ring,
      length-drop (suc pos) ring,
    ))

pub length-push_front : (n : ℕ) (ring : Slots) → length (push_front n ring) ≡ length ring
unfolding push_front
length-push_front n [] = refl
length-push_front n (x ∷ xs) =
    rw (push_front_lem n x xs) (omega (arith, length-take (length xs) (x ∷ xs)))

abbrev holds_number : ℕ → Option ℕ → Bool
holds_number n slot = opt_eq slot (some n)

-- What `position` finds: an index in range, whose slot holds the number; or no slot holds it.
pub position-none :
    (n : ℕ) (ring : Slots) → position (holds_number n) ring ≡ none → occurrences n ring ≡ 0
position-none n [] h = refl
position-none n (x ∷ xs) h = ground (arith, position-none n xs)

pub position-some :
    (n pos : ℕ) (ring : Slots)
    → position (holds_number n) ring ≡ some pos
    → (pos < length ring) × (get_or ring pos none ≡ some n)
position-some n pos [] h = cc
position-some n zero (x ∷ xs) h = ground (arith, opt_eq_iff x (some n))
position-some n (suc pos) (x ∷ xs) h = ground (arith, position-some n pos xs)

-- The invariant of the ring: its length is that of the array, and no generation stands twice.
pub record IsRing (ring : Slots) : Type 0 where
  pub size : length ring ≡ ring_len
  pub once : (n : ℕ) → occurrences n ring ≤ 1

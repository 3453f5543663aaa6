-- ===== src/State/Rotation.antt =====
-- What `rotate_known_good` of state/decide.rs keeps and does to the ring.
use siratis_nmbl_bootloader.Prelude.{
  ℕ, zero, suc, ◌+◌, ◌-◌, ◌≤◌, ◌<◌, ◌≡◌, ◌≢◌, refl, ap, Bool, true, false, ◌&&◌, Option, none, some,
  List, [], ◌∷◌, arith, ltb, ◌==◌, opt_eq, opt_eq_iff, if◌then◌else◌, length, get_or, any, position,
  take, Bool-cases, Option-cases, inl, inr, ◌⊎◌,
}
use siratis_nmbl_bootloader.State.Types.{Generation, ring_len}
use siratis_nmbl_bootloader.State.Decide.{number_at, push_front, promote, rotated_ring}
use siratis_nmbl_bootloader.State.Ring.{
  Slots, IsRing, occurrences, tally, occurrences-promote, length-promote, length-push_front,
  promote_lem, push_front_lem, position-none, position-some, occurrences-take-le,
}

abbrev pub on_disk : ℕ → List Generation → Bool
on_disk n generations = any (λ g. g.number == n) generations

abbrev slot_of : ℕ → Slots → Option ℕ
slot_of n ring = position (λ slot. opt_eq slot (some n)) ring

-- The four outcomes of a rotation, with what each is known by.
pub data Rotation (n : ℕ) (ring : Slots) (generations : List Generation) (active : ℕ)
    : Slots → Type 0 where
  gone : on_disk n generations ≡ false → Rotation n ring generations active ring
  fresh :
      on_disk n generations ≡ true
      → slot_of n ring ≡ none
      → Rotation n ring generations active (push_front n ring)
  promoted :
      (pos : ℕ)
      → on_disk n generations ≡ true
      → slot_of n ring ≡ some pos
      → number_at generations active ≡ some n
      → Rotation n ring generations active (promote pos ring)
  kept :
      (pos : ℕ)
      → on_disk n generations ≡ true
      → slot_of n ring ≡ some pos
      → (pos ≡ 0) ⊎ (opt_eq (some n) (number_at generations active) ≡ false)
      → Rotation n ring generations active ring

Rotation-found :
    (n : ℕ) (ring : Slots) (generations : List Generation) (active pos : ℕ)
    → on_disk n generations ≡ true
    → slot_of n ring ≡ some pos
    → (b : Bool) → opt_eq (some n) (number_at generations active) ≡ b
    → (c : Bool) → ltb 0 pos ≡ c
    → Rotation n ring generations active (if b && c then promote pos ring else ring)
Rotation-found n ring gs active pos d s true e true z =
    promoted pos d s (ground (arith, opt_eq_iff (some n) (number_at gs active)))
Rotation-found n ring gs active pos d s true e false z = kept pos d s (inl (ground arith))
Rotation-found n ring gs active pos d s false e c z = kept pos d s (inr e)

pub rotation :
    (n : ℕ) (ring : Slots) (generations : List Generation) (active : ℕ)
    → Rotation n ring generations active (rotated_ring n ring generations active)
unfolding rotated_ring
rotation n ring gs active = elim (Bool-cases (on_disk n gs)) [
  | inr off ↦ rw off (gone off)
  | inl on ↦ rw on (elim (Option-cases (slot_of n ring)) [
    | inl e ↦ rw e (fresh on e)
    | inr (pos, e) ↦ rw e (
        Rotation-found n ring gs active pos on e (opt_eq (some n) (number_at gs active)) refl
          (ltb 0 pos) refl)
  ])
]

-- A pushed ring holds the new generation and all but the last of the old slots.
occurrences-push_front :
    (m n : ℕ) (ring : Slots)
    → 0 < length ring
    → occurrences m (push_front n ring)
      ≡ tally (some n) m + occurrences m (take (length ring - 1) ring)
occurrences-push_front m n [] h = absurd (omega arith)
occurrences-push_front m n (x ∷ xs) h =
    rw (push_front_lem n x xs)
      (ap (λ k. tally (some n) m + occurrences m (take k (x ∷ xs))) (omega arith))

once-push_front :
    (n : ℕ) (ring : Slots)
    → IsRing ring
    → occurrences n ring ≡ 0
    → (m : ℕ) → occurrences m (push_front n ring) ≤ 1
once-push_front n ring v z m = ground (
  arith,
  v.once m,
  v.size,
  occurrences-push_front m n ring,
  occurrences-take-le m (length ring - 1) ring,
)

Rotation-IsRing :
    {n : ℕ} {ring : Slots} {generations : List Generation} {active : ℕ} {new : Slots}
    → IsRing ring
    → Rotation n ring generations active new
    → IsRing new
Rotation-IsRing v (gone off) = v
Rotation-IsRing {n} {ring} v (fresh on e) = record {
  size = rw (length-push_front n ring) v.size;
  once = once-push_front n ring v (position-none n ring e);
}
Rotation-IsRing {n} {ring} v (promoted pos on e a) =
    let (inside, _) = position-some n pos ring e in
    record {
      size = rw (length-promote pos ring inside) v.size;
      once = λ m. rw (occurrences-promote m pos ring inside) (v.once m);
    }
Rotation-IsRing v (kept pos on e a) = v

-- A rotation of twenty slots without repetition gives twenty slots without repetition.
pub rotated_ring-IsRing :
    (n : ℕ) (ring : Slots) (generations : List Generation) (active : ℕ)
    → IsRing ring
    → IsRing (rotated_ring n ring generations active)
rotated_ring-IsRing n ring gs active v = Rotation-IsRing v (rotation n ring gs active)

Rotation-occurrences :
    {n : ℕ} {ring : Slots} {generations : List Generation} {active : ℕ} {new : Slots}
    → IsRing ring
    → Rotation n ring generations active new
    → (m : ℕ)
    → (occurrences m (take (ring_len - 1) ring) ≤ occurrences m new)
      × (m ≢ n → occurrences m new ≤ occurrences m ring)
Rotation-occurrences {n} {ring} v (gone off) m =
    (occurrences-take-le m (ring_len - 1) ring, λ _. omega arith)
Rotation-occurrences {n} {ring} v (fresh on e) m =
    let last : length ring - 1 ≡ ring_len - 1 = omega (arith, v.size) in
    let eq : occurrences m (push_front n ring)
        ≡ tally (some n) m + occurrences m (take (ring_len - 1) ring) =
      rw (← last) (occurrences-push_front m n ring (omega (arith, v.size))) in
    let below : occurrences m (take (ring_len - 1) ring) ≤ occurrences m ring =
      occurrences-take-le m (ring_len - 1) ring in
    (omega (arith, eq), λ ne. ground (arith, eq, below))
Rotation-occurrences {n} {ring} v (promoted pos on e a) m =
    let (inside, _) = position-some n pos ring e in
    rw (occurrences-promote m pos ring inside)
      (occurrences-take-le m (ring_len - 1) ring, λ _. omega arith)
Rotation-occurrences {n} {ring} v (kept pos on e a) m =
    (occurrences-take-le m (ring_len - 1) ring, λ _. omega arith)

-- In a ring without repetition, a rotation over `n` loses at most the generation in the last slot,
-- and brings in none but `n`.
pub rotated_ring-occurrences :
    (n : ℕ) (ring : Slots) (generations : List Generation) (active : ℕ)
    → IsRing ring
    → (m : ℕ)
    → (occurrences m (take (ring_len - 1) ring)
        ≤ occurrences m (rotated_ring n ring generations active))
      × (m ≢ n → occurrences m (rotated_ring n ring generations active) ≤ occurrences m ring)
rotated_ring-occurrences n ring gs active v = Rotation-occurrences v (rotation n ring gs active)

front-push_front :
    (n : ℕ) (ring : Slots) → 0 < length ring → get_or (push_front n ring) 0 none ≡ some n
front-push_front n [] h = absurd (omega arith)
front-push_front n (x ∷ xs) h = rw (push_front_lem n x xs)

found-ne-zero : (n pos : ℕ) (ring : Slots) → slot_of n ring ≡ some pos → occurrences n ring ≢ 0
found-ne-zero n pos [] e z = cc
found-ne-zero n zero (x ∷ xs) e z = ground arith
found-ne-zero n (suc pos) (x ∷ xs) e z = ground (arith, found-ne-zero n pos xs)

Rotation-front :
    {n : ℕ} {ring : Slots} {generations : List Generation} {active : ℕ} {new : Slots}
    → IsRing ring
    → Rotation n ring generations active new
    → on_disk n generations ≡ true
    → (number_at generations active ≡ some n) ⊎ (occurrences n ring ≡ 0)
    → get_or new 0 none ≡ some n
Rotation-front v (gone off) on w = cc
Rotation-front {n} {ring} v (fresh on e) d w = front-push_front n ring (omega (arith, v.size))
Rotation-front {n} {ring} v (promoted pos on e a) d w =
    let (inside, at) = position-some n pos ring e in rw (promote_lem pos ring inside) at
Rotation-front {n} {ring} v (kept pos on e (inl p)) d w =
    let (inside, at) = position-some n pos ring e in rw p at at
Rotation-front {n} {ring} {generations} {active} v (kept pos on e (inr p)) d (inl a) =
    absurd (ground (arith, opt_eq_iff (some n) (number_at generations active)))
Rotation-front {n} {ring} v (kept pos on e (inr p)) d (inr z) =
    absurd (found-ne-zero n pos ring e z)

-- In a ring without repetition, a generation that is on disk comes to the front if it is the active
-- one or was not in the ring.
pub rotated_ring-front :
    (n : ℕ) (ring : Slots) (generations : List Generation) (active : ℕ)
    → IsRing ring
    → on_disk n generations ≡ true
    → (number_at generations active ≡ some n) ⊎ (occurrences n ring ≡ 0)
    → get_or (rotated_ring n ring generations active) 0 none ≡ some n
rotated_ring-front n ring gs active v = Rotation-front v (rotation n ring gs active)

-- ===== src/Log/Ring.antt =====
-- log/ring.rs: the last lines. A line is any value; a global behind a lock is passed in and handed
-- back, `none` before its first use, and a lock that is taken or poisoned is an argument.
use siratis_nmbl_bootloader.Prelude.{
  ℕ, ◌-◌, min, Bool, ◌||◌, Option, none, some, List, [], ◌∷◌, ◌++◌, ◌==◌, if◌then◌else◌, length,
  drop,
}

abbrev pub ring_capacity : ℕ
ring_capacity = 256

module _ {A : Type 0} where
  unfoldable pub ring_push : List A → A → List A
  ring_push ring line =
      if length ring == ring_capacity then drop 1 ring ++ (line ∷ []) else ring ++ (line ∷ [])

  unfoldable pub ring_snapshot : List A → ℕ → List A
  ring_snapshot ring n = if n == 0 then [] else drop (length ring - min n (length ring)) ring

  abbrev or_new : Option (List A) → List A
  or_new none = []
  or_new (some ring) = ring

  unfoldable pub push_ring : Bool → Option (List A) → A → Option (List A)
  push_ring locked global line = if locked then global else some (ring_push (or_new global) line)

  abbrev of_global : Option (List A) → ℕ → List A
  of_global none n = []
  of_global (some ring) n = ring_snapshot ring n

  -- `snapshot`
  unfoldable pub snapshot_tail : Bool → Option (List A) → ℕ → List A
  snapshot_tail poisoned global n = if (n == 0) || poisoned then [] else of_global global n

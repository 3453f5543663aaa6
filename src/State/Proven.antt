-- ===== src/State/Proven.antt =====
-- The targets that state/decide.rs forces, and the unproven generation.
use siratis_nmbl_bootloader.Prelude.{
  ℕ, ◌≡◌, refl, subst, ◌∙◌, ◌≢◌, inl, inr, not, Option, none, some, List, [], ◌∷◌, arith, ◌==◌,
  if◌then◌else◌, opt_eq, Bool-cases, Option-cases,
}
use siratis_nmbl_bootloader.State.Types.{State, Generation, honour_tui, force_pick}
use siratis_nmbl_bootloader.State.Decide.{
  position_of, pick_fallback, newest_known_good, number_at, force_or_honour, avoid_failed_unproven,
}
use siratis_nmbl_bootloader.State.Fallback.{number_at-position_of}
use siratis_nmbl_bootloader.State.Picked.{Picked, pick_fallback-Picked}

-- A target that is on disk and is not the unproven generation.
abbrev pub IsProven : State → List Generation → ℕ → Type 0
IsProven s generations j =
    (n : ℕ) × (number_at generations j ≡ some n) × (s.unproven_generation ≢ some n)

pub pick_fallback-IsProven :
    (s : State) (generations : List Generation) (active_index j : ℕ)
    → pick_fallback s generations active_index ≡ some j
    → IsProven s generations j
pick_fallback-IsProven s gs a j h = go (subst (Picked s gs a) h (pick_fallback-Picked s gs a))
  where
    go : Picked s gs a (some j) → IsProven s gs j
    go (inl p) = (p.number, p.found, p.proven)
    go (inr (e, f)) = (f.number, f.found, λ u. f.wanted (inr (inr u)))

newest_known_good-IsOther :
    (unproven : ℕ) (ring : List (Option ℕ)) (generations : List Generation) (j : ℕ)
    → newest_known_good unproven ring generations ≡ some j
    → (n : ℕ) × (number_at generations j ≡ some n) × (unproven ≢ n)
unfolding newest_known_good
newest_known_good-IsOther u [] gs j h = absurd (cc)
newest_known_good-IsOther u (none ∷ ring) gs j h = newest_known_good-IsOther u ring gs j h
newest_known_good-IsOther u (some n ∷ ring) gs j h = elim (Bool-cases (n == u)) [
  | inl same ↦ newest_known_good-IsOther u ring gs j (rw same at h)
  | inr other ↦ elim (Option-cases (position_of n gs)) [
    | inl e ↦ newest_known_good-IsOther u ring gs j (rw (other, e) at h)
    | inr (i, e) ↦ (n, number_at-position_of n j gs (e ∙ (rw (other, e) at h)), λ q. ground arith)
  ]
]

pub avoid_failed_unproven-IsProven :
    (s : State) (generations : List Generation) (active_index j : ℕ)
    → avoid_failed_unproven s generations active_index ≡ force_pick j
    → IsProven s generations j
unfolding avoid_failed_unproven
avoid_failed_unproven-IsProven s gs a j h = marked s.unproven_generation refl h
  where
    forced : (o : Option ℕ) → force_or_honour o ≡ force_pick j → o ≡ some j
    forced none p = cc
    forced (some i) p = cc

    marked :
        (o : Option ℕ)
        → s.unproven_generation ≡ o
        → (elim o [
          | none ↦ honour_tui
          | some unproven ↦
              if not s.unproven_failed
              then honour_tui
              else if not (opt_eq (number_at gs a) (some unproven))
              then honour_tui
              else force_or_honour (newest_known_good unproven s.known_good_generations gs)
        ])
          ≡ force_pick j
        → IsProven s gs j
    marked none e p = absurd (cc)
    marked (some u) e p =
        let (n, at, ne) =
          newest_known_good-IsOther u s.known_good_generations gs j
            (forced (newest_known_good u s.known_good_generations gs) (ground arith)) in
        (n, at, λ q. ne (ground arith))

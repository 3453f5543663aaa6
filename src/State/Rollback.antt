-- ===== src/State/Rollback.antt =====
-- The branches of `decide` in state/decide.rs: when it forces a generation, when it gives up, what
-- it charges for it and what it leaves alone.
use siratis_nmbl_bootloader.Prelude.{
  ◌∙◌, ◌+◌, ◌↔◌, not, ◌≢◌, ◌⊎◌, u32_max, ℕ, ◌≤◌, ◌<◌, ◌≡◌, refl, true, false, Option, none, some,
  List, arith, leb, is_some, if_case, inl, inr,
}
use siratis_nmbl_bootloader.State.Proven.{
  IsProven, pick_fallback-IsProven, avoid_failed_unproven-IsProven,
}
use siratis_nmbl_bootloader.State.Types.{
  force_pick, State, Generation, StatefulDecision, honour_tui, exhausted,
}
use siratis_nmbl_bootloader.State.Decide.{
  pick_fallback, avoid_failed_unproven, rotate_known_good, note_failed_unproven, decide, spend,
}

unproven-rotate_known_good :
    (s : State) (generations : List Generation) (active_index : ℕ)
    → (rotate_known_good s generations active_index).unproven_generation ≡ s.unproven_generation
unfolding rotate_known_good
unproven-rotate_known_good s gs a = ground arith

unproven-note_failed_unproven :
    (s : State) → (note_failed_unproven s).unproven_generation ≡ s.unproven_generation
unfolding note_failed_unproven
unproven-note_failed_unproven s = ground arith

pub attempt-note_failed_unproven :
    (s : State) → (note_failed_unproven s).recovery_attempt ≡ s.recovery_attempt
unfolding note_failed_unproven
attempt-note_failed_unproven s = ground arith

abbrev pub healthy_state : State → List Generation → ℕ → State
healthy_state s generations active_index = record (rotate_known_good s generations active_index) {
  recovery_attempt = 0;
}

abbrev pub fallback_of : State → List Generation → ℕ → Option ℕ
fallback_of s generations active_index =
    pick_fallback (note_failed_unproven s) generations active_index

-- The five ways through `decide`, each with its guards, outcome and state.
pub data Decided (s : State) (generations : List Generation) (active_index max : ℕ)
    : StatefulDecision × State → Type 0 where
  healthy :
      s.last_boot_succeeded ≡ true
      → Decided s generations active_index max (
        avoid_failed_unproven (healthy_state s generations active_index) generations active_index,
        healthy_state s generations active_index,
      )
  retry_failed :
      s.last_boot_succeeded ≡ false
      → s.rescue_exit_retry_in_progress ≡ true
      → Decided s generations active_index max (exhausted, s)
  never_tried :
      s.last_boot_succeeded ≡ false
      → s.rescue_exit_retry_in_progress ≡ false
      → s.last_attempted_generation ≡ none
      → Decided s generations active_index max (honour_tui, s)
  over_budget :
      s.last_boot_succeeded ≡ false
      → s.rescue_exit_retry_in_progress ≡ false
      → is_some s.last_attempted_generation ≡ true
      → max ≤ s.recovery_attempt
      → Decided s generations active_index max (exhausted, s)
  fell_back :
      s.last_boot_succeeded ≡ false
      → s.rescue_exit_retry_in_progress ≡ false
      → is_some s.last_attempted_generation ≡ true
      → s.recovery_attempt < max
      → (o : Option ℕ) → fallback_of s generations active_index ≡ o
      → Decided s generations active_index max (spend (note_failed_unproven s) o)

none_of_not_some : (o : Option ℕ) → is_some o ≡ false → o ≡ none
none_of_not_some none e = refl
none_of_not_some (some n) e = cc

pub decided :
    (s : State) (generations : List Generation) (active_index max : ℕ)
    → Decided s generations active_index max (decide s generations active_index max)
unfolding decide
decided s gs a max =
    if_case D s.last_boot_succeeded (λ ok. healthy ok)
      λ failed.
        if_case D s.rescue_exit_retry_in_progress (λ retry. retry_failed failed retry)
          λ fresh.
            if_case D (not (is_some s.last_attempted_generation))
              (λ never. never_tried failed fresh (none_of_not_some _ (ground arith)))
              λ tried.
                if_case D (leb max s.recovery_attempt)
                  (λ over. over_budget failed fresh (ground arith) (ground arith))
                  λ within.
                    fell_back failed fresh (ground arith) (ground arith) (fallback_of s gs a) refl
  where
    D : StatefulDecision × State → Type 0
    D = Decided s gs a max

Decided-IsProven :
    {s : State} {generations : List Generation} {active_index max : ℕ}
    {out : StatefulDecision × State} (j : ℕ)
    → Decided s generations active_index max out
    → out.0 ≡ force_pick j
    → IsProven s generations j
Decided-IsProven {s} {generations = gs} {active_index = a} j (healthy ok) h =
    let (n, at, ne) = avoid_failed_unproven-IsProven (healthy_state s gs a) gs a j h in
    (n, at, λ e. ne (unproven-rotate_known_good s gs a ∙ e))
Decided-IsProven j (retry_failed f r) h = absurd (cc)
Decided-IsProven j (never_tried f r t) h = absurd (cc)
Decided-IsProven j (over_budget f r t b) h = absurd (cc)
Decided-IsProven j (fell_back f r t b none e) h = absurd (cc)
Decided-IsProven {s} {generations = gs} {active_index = a} j (fell_back f r t b (some i) e) h =
    let (n, at, ne) = pick_fallback-IsProven (note_failed_unproven s) gs a j (e ∙ ground arith) in
    (n, at, λ u. ne (unproven-note_failed_unproven s ∙ u))

-- Whatever the state, a generation that `decide` forces is one of those on disk, and is not the
-- unproven one.
pub decide-IsProven :
    (s : State) (generations : List Generation) (active_index max j : ℕ)
    → (decide s generations active_index max).0 ≡ force_pick j
    → IsProven s generations j
decide-IsProven s gs a max j h = Decided-IsProven j (decided s gs a max) h

Decided-budget :
    {s : State} {generations : List Generation} {active_index max : ℕ}
    {out : StatefulDecision × State} (j : ℕ)
    → max ≤ u32_max
    → s.last_boot_succeeded ≡ false
    → Decided s generations active_index max out
    → out.0 ≡ force_pick j
    → (s.recovery_attempt < max) × (out.1.recovery_attempt ≡ s.recovery_attempt + 1)
Decided-budget j m f (healthy ok) h = absurd (cc)
Decided-budget j m f (retry_failed _ r) h = absurd (cc)
Decided-budget j m f (never_tried _ r t) h = absurd (cc)
Decided-budget j m f (over_budget _ r t b) h = absurd (cc)
Decided-budget j m f (fell_back _ r t b none e) h = absurd (cc)
Decided-budget {s} j m f (fell_back _ r t b (some i) e) h =
    (b, ground (arith, attempt-note_failed_unproven s))

-- After a failed boot, with a budget that is a u32, a forced generation costs exactly one recovery
-- attempt, and the budget still held one.
pub decide_budget :
    (s : State) (generations : List Generation) (active_index max j : ℕ)
    → max ≤ u32_max
    → s.last_boot_succeeded ≡ false
    → (decide s generations active_index max).0 ≡ force_pick j
    → (s.recovery_attempt < max)
      × ((decide s generations active_index max).1.recovery_attempt ≡ s.recovery_attempt + 1)
decide_budget s gs a max j m f h = Decided-budget j m f (decided s gs a max) h

-- The conditions under which `decide` gives up.
abbrev pub GivesUp : State → List Generation → ℕ → ℕ → Type 0
GivesUp s generations active_index max =
    (s.last_boot_succeeded ≡ false)
    × ((s.rescue_exit_retry_in_progress ≡ true)
        ⊎ ((is_some s.last_attempted_generation ≡ true)
            × ((max ≤ s.recovery_attempt) ⊎ (fallback_of s generations active_index ≡ none))))

pub avoid-ne-exhausted :
    (s : State) (generations : List Generation) (active_index : ℕ)
    → avoid_failed_unproven s generations active_index ≢ exhausted
unfolding avoid_failed_unproven
avoid-ne-exhausted s gs a h = ground arith

Decided-GivesUp :
    {s : State} {generations : List Generation} {active_index max : ℕ}
    {out : StatefulDecision × State}
    → Decided s generations active_index max out
    → (out.0 ≡ exhausted) ↔ GivesUp s generations active_index max
Decided-GivesUp {s} {generations = gs} {active_index = a} (healthy ok) =
    (λ h. absurd (avoid-ne-exhausted (healthy_state s gs a) gs a h), λ g. absurd (cc (g.0)))
Decided-GivesUp (retry_failed f r) = (λ _. (f, inl r), λ _. refl)
Decided-GivesUp (never_tried f r t) = (λ h. absurd (cc), λ g. absurd (ground arith))
Decided-GivesUp (over_budget f r t b) = (λ _. (f, inr (t, inl b)), λ _. refl)
Decided-GivesUp (fell_back f r t b none e) = (λ _. (f, inr (t, inr e)), λ _. refl)
Decided-GivesUp (fell_back f r t b (some i) e) = (λ h. absurd (cc), λ g. absurd (ground arith))

-- `decide` gives up exactly where the last boot failed and: that was the retry after a rescue, or
-- some boot was attempted and either the budget is spent or there is no fallback.
pub decide-exhausted :
    (s : State) (generations : List Generation) (active_index max : ℕ)
    → ((decide s generations active_index max).0 ≡ exhausted)
      ↔ GivesUp s generations active_index max
decide-exhausted s gs a max = Decided-GivesUp (decided s gs a max)

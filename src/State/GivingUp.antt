-- ===== src/State/GivingUp.antt =====
-- What `decide` of state/decide.rs leaves of the state where it gives up.
use siratis_nmbl_bootloader.Prelude.{
  ℕ, ◌<◌, ◌≡◌, refl, sym, ◌∙◌, ◌⊎◌, inl, inr, Bool, true, false, ◌&&◌, Option, none, some, List,
  arith, if◌then◌else◌, is_some, opt_eq, opt_eq_iff,
}
use siratis_nmbl_bootloader.State.Types.{State, StatefulDecision, Generation, exhausted}
use siratis_nmbl_bootloader.State.Decide.{note_failed_unproven, decide}
use siratis_nmbl_bootloader.State.Rollback.{
  fell_back, over_budget, never_tried, retry_failed, healthy, healthy_state, fallback_of, Decided,
  decided, avoid-ne-exhausted,
}

-- The boot that failed was the unproven generation's, and the budget held.
abbrev pub FailedUnproven : State → ℕ → Type 0
FailedUnproven s max =
    (n : ℕ) × (s.last_attempted_generation ≡ some n)
    × (s.unproven_generation ≡ some n)
    × (s.recovery_attempt < max)

-- What giving up leaves of the state.
abbrev pub LeftByGivingUp : State → ℕ → State → Type 0
LeftByGivingUp s max after =
    (((s.rescue_exit_retry_in_progress ≡ true) ⊎ (¬ FailedUnproven s max)) × (after ≡ s))
    ⊎ ((s.rescue_exit_retry_in_progress ≡ false)
        × FailedUnproven s max
        × (after ≡ record s { unproven_failed = true }))

note_failed_unproven-cases :
    (s : State) (max : ℕ)
    → s.rescue_exit_retry_in_progress ≡ false
    → s.recovery_attempt < max
    → LeftByGivingUp s max (note_failed_unproven s)
unfolding note_failed_unproven
note_failed_unproven-cases s max r b =
    go s.unproven_generation refl (opt_eq s.last_attempted_generation s.unproven_generation) refl
  where
    go :
        (u : Option ℕ)
        → s.unproven_generation ≡ u
        → (same : Bool) → opt_eq s.last_attempted_generation s.unproven_generation ≡ same
        → LeftByGivingUp s max
            (if is_some u && same then record s { unproven_failed = true } else s)
    go none e same q = inl (inr (λ (n, l, u, _). let k : none ≡ some n = sym e ∙ u in cc), refl)
    go (some n) e false q = inl (
      inr (λ (m, l, u, _).
          let k : true ≡ false =
            sym ((opt_eq_iff s.last_attempted_generation s.unproven_generation).1 (l ∙ sym u))
            ∙ q in
          cc),
      refl,
    )
    go (some n) e true q =
        inr (
          r,
          (n, (opt_eq_iff s.last_attempted_generation s.unproven_generation).0 q ∙ e, e, b),
          refl,
        )

Decided-LeftByGivingUp :
    {s : State} {generations : List Generation} {active_index max : ℕ}
    {out : StatefulDecision × State}
    → Decided s generations active_index max out
    → out.0 ≡ exhausted
    → LeftByGivingUp s max out.1
Decided-LeftByGivingUp {s} {generations = gs} {active_index = a} (healthy good) h =
    absurd (avoid-ne-exhausted (healthy_state s gs a) gs a h)
Decided-LeftByGivingUp (retry_failed f r) h = inl (inl r, refl)
Decided-LeftByGivingUp (never_tried f r t) h = absurd (cc)
Decided-LeftByGivingUp (over_budget f r t b) h =
    inl (inr (λ (n, l, u, within). absurd (omega arith)), refl)
Decided-LeftByGivingUp {s} {max} (fell_back f r t b none e) h = note_failed_unproven-cases s max r b
Decided-LeftByGivingUp (fell_back f r t b (some i) e) h = absurd (cc)

-- Whenever `decide` gives up, it sets unproven_failed and changes nothing else of the state, where the
-- boot that failed was the unproven generation's, the budget held and it was not the retry after a
-- rescue; in every other case it leaves the state as it was.
pub decide-LeftByGivingUp :
    (s : State) (generations : List Generation) (active_index max : ℕ)
    → (decide s generations active_index max).0 ≡ exhausted
    → LeftByGivingUp s max (decide s generations active_index max).1
decide-LeftByGivingUp s gs a max h = Decided-LeftByGivingUp (decided s gs a max) h

-- Where the failed boot is the unproven generation's, the budget holds and no fallback is left,
-- `decide` gives up and still changes the state: it records that failure.
pub decide-exhausted_marks :
    (s : State) (generations : List Generation) (active_index max n : ℕ)
    → s.last_boot_succeeded ≡ false
    → s.rescue_exit_retry_in_progress ≡ false
    → s.last_attempted_generation ≡ some n
    → s.unproven_generation ≡ some n
    → s.recovery_attempt < max
    → fallback_of s generations active_index ≡ none
    → decide s generations active_index max ≡ (exhausted, record s { unproven_failed = true })
unfolding decide note_failed_unproven
decide-exhausted_marks s gs a max n f r l u b e = ground arith

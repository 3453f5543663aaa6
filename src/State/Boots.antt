-- ===== src/State/Boots.antt =====
-- Unattended boots in a row, one after the other: main_parts/stateful.rs over state/decide.rs.
use siratis_nmbl_bootloader.Prelude.{
  ℕ, zero, suc, ◌+◌, ◌-◌, ◌≤◌, ◌<◌, ◌≡◌, refl, true, false, Option, none, some, List, arith,
  is_some, u32_max,
}
use siratis_nmbl_bootloader.State.Types.{
  State, Generation, StatefulDecision, honour_tui, force_pick, exhausted,
}
use siratis_nmbl_bootloader.State.Decide.{decide, number_at, note_failed_unproven, spend}
use siratis_nmbl_bootloader.State.Mark.{attempt}
use siratis_nmbl_bootloader.State.Error.{Result, ok, err}
use siratis_nmbl_bootloader.State.Dispatch.{Decision, boot, shell, reboot, resolve}
use siratis_nmbl_bootloader.State.Proven.{IsProven}
use siratis_nmbl_bootloader.State.Rollback.{
  Decided, decided, healthy, retry_failed, never_tried, over_budget, fell_back, decide-IsProven,
  attempt-note_failed_unproven,
}

-- The state on disk after a boot, where each write succeeds; `none` where there is no boot. An
-- attempt that cannot be recorded leaves the old state.
abbrev state_after : State → State → List Generation → Result Decision → Option State
state_after old s generations (ok (boot index cmdline)) =
    some (elim (attempt s generations index) [ none ↦ old | some t ↦ t ])
state_after old s generations (ok shell) = none
state_after old s generations (ok reboot) = none
state_after old s generations (err e) = none

-- An unattended boot of the default generation; `none` where it goes to the rescue.
unfoldable pub next_boot : List Generation → ℕ → ℕ → ℕ → State → Option State
next_boot generations active_index max default_index s =
    state_after s (decide s generations active_index max).1 generations
      (resolve (decide s generations active_index max).0 generations (ok (boot default_index none)))

-- Boots in a row none of which reaches its success target.
unfoldable pub failing_boots : ℕ → List Generation → ℕ → ℕ → ℕ → State → Option State
failing_boots zero generations active_index max default_index s = some s
failing_boots (suc k) generations active_index max default_index s =
    elim (next_boot generations active_index max default_index s) [
      | none ↦ none
      | some s' ↦ failing_boots k generations active_index max default_index s'
    ]

-- A boot was tried and is not known to have succeeded.
abbrev HasFailed : State → Type 0
HasFailed s = (s.last_boot_succeeded ≡ false) × (is_some s.last_attempted_generation ≡ true)

-- The generations can be recorded, and the default is one of them.
pub record IsBootable (generations : List Generation) (default_index : ℕ) : Type 0 where
  pub recordable : (i n : ℕ) → number_at generations i ≡ some n → n < u32_max
  pub default : ℕ
  pub present : number_at generations default_index ≡ some default

attempt-HasFailed :
    (old s : State) (generations : List Generation) (i n : ℕ)
    → number_at generations i ≡ some n
    → n < u32_max
    → let t : State = elim (attempt s generations i) [ none ↦ old | some t ↦ t ] in
      HasFailed t × (t.recovery_attempt ≡ s.recovery_attempt)
unfolding attempt
attempt-HasFailed old s gs i n at lt = ground arith

-- After a failed boot the next unattended one ends in the rescue or spends one attempt.
abbrev Spent : State → ℕ → Option State → Type 0
Spent s max none = Unit
Spent s max (some t) =
    HasFailed t × (s.recovery_attempt < max) × (t.recovery_attempt ≡ s.recovery_attempt + 1)

resolve_force :
    (generations : List Generation) (j n : ℕ) (selected : Result Decision)
    → number_at generations j ≡ some n
    → resolve (force_pick j) generations selected ≡ ok (boot j none)
unfolding resolve
resolve_force gs j n selected at = rw (at, resolve)

Spent-force :
    (s : State) (generations : List Generation) (i j max : ℕ)
    → max ≤ u32_max
    → s.recovery_attempt < max
    → IsBootable generations i
    → IsProven s generations j
    → Spent s max (
        state_after s
          (spend (note_failed_unproven s) (some j)).1
          generations
          (resolve (force_pick j) generations (ok (boot i none))))
Spent-force s gs i j max m lt b (n, at, _) =
    let (failed, same) =
      attempt-HasFailed s (spend (note_failed_unproven s) (some j)).1 gs j n at
        (b.recordable j n at) in
    rw (resolve_force gs j n (ok (boot i none)) at)
      (failed, lt, ground (arith, same, attempt-note_failed_unproven s))

Spent-case :
    {s : State} {generations : List Generation} {active max : ℕ} {out : StatefulDecision × State}
    (i : ℕ)
    → max ≤ u32_max
    → IsBootable generations i
    → HasFailed s
    → Decided s generations active max out
    → ((j : ℕ) → out.0 ≡ force_pick j → IsProven s generations j)
    → Spent s max (state_after s out.1 generations (resolve out.0 generations (ok (boot i none))))
unfolding resolve
Spent-case i m b f (healthy ok') safe = absurd (cc (f.0))
Spent-case i m b f (retry_failed _ r) safe = tt
Spent-case i m b f (never_tried _ r l) safe = absurd (ground arith)
Spent-case i m b f (over_budget _ r l o) safe = tt
Spent-case i m b f (fell_back _ r l o none e) safe = tt
Spent-case {s} {generations = gs} {max} i m b f (fell_back _ r l o (some j) e) safe =
    Spent-force s gs i j max m o b (safe j refl)

next_boot-Spent :
    (generations : List Generation) (active max i : ℕ) (s : State)
    → max ≤ u32_max
    → IsBootable generations i
    → HasFailed s
    → Spent s max (next_boot generations active max i s)
unfolding next_boot
next_boot-Spent gs a max i s m b f =
    Spent-case i m b f (decided s gs a max) (λ j e. decide-IsProven s gs a max j e)

failing_boots-bounded :
    (k : ℕ) (generations : List Generation) (active max i : ℕ) (s : State)
    → max ≤ u32_max
    → IsBootable generations i
    → HasFailed s
    → max - s.recovery_attempt < k
    → failing_boots k generations active max i s ≡ none
unfolding failing_boots
failing_boots-bounded zero gs a max i s m b f h = elim h [ ]
failing_boots-bounded (suc k) gs a max i s m b f h =
    go (next_boot gs a max i s) (next_boot-Spent gs a max i s m b f)
      (λ t f' d. failing_boots-bounded k gs a max i t m b f' d)
  where
    go :
        (o : Option State)
        → Spent s max o
        → ((t : State)
            → HasFailed t
            → max - t.recovery_attempt < k
            → failing_boots k gs a max i t ≡ none)
        → (elim o [ none ↦ none | some t ↦ failing_boots k gs a max i t ]) ≡ none
    go none p ih = refl
    go (some t) (f', lt, plus) ih = ih t f' (omega arith)

after_first :
    (old s : State) (generations : List Generation) (i : ℕ) (d : StatefulDecision)
    → IsBootable generations i
    → ((j : ℕ) → d ≡ force_pick j → (n : ℕ) × (number_at generations j ≡ some n))
    → (t : State)
    → state_after old s generations (resolve d generations (ok (boot i none))) ≡ some t
    → HasFailed t
unfolding resolve
after_first old s gs i honour_tui b safe t h =
    let (f, _) =
      attempt-HasFailed old s gs i b.default b.present (b.recordable i b.default b.present) in
    ground arith
after_first old s gs i (force_pick j) b safe t h =
    let (n, at) = safe j refl in
    let (f, _) = attempt-HasFailed old s gs j n at (b.recordable j n at) in ground arith
after_first old s gs i exhausted b safe t h = absurd (cc)

next_boot-HasFailed :
    (generations : List Generation) (active max i : ℕ) (s t : State)
    → IsBootable generations i
    → next_boot generations active max i s ≡ some t
    → HasFailed t
unfolding next_boot
next_boot-HasFailed gs a max i s t b h =
    after_first s (decide s gs a max).1 gs i (decide s gs a max).0 b
      (λ j e. let (n, at, _) = decide-IsProven s gs a max j e in (n, at)) t h

-- Where every write to the file succeeds, the generations can be recorded, the default is one of
-- them and the budget `max` is a u32: however the state starts, unattended boots that keep failing
-- end in the rescue. Of `max + 2` such boots in a row, not all are made.
pub failing_boots_end :
    (generations : List Generation) (active_index max default_index : ℕ) (s : State)
    → max ≤ u32_max
    → IsBootable generations default_index
    → failing_boots (max + 2) generations active_index max default_index s ≡ none
unfolding failing_boots
failing_boots_end gs a max i s m b =
    let two : max + 2 ≡ suc (suc max) = omega arith in
    rw two (
      go (next_boot gs a max i s) (λ t e.
        failing_boots-bounded (suc max) gs a max i t m b (next_boot-HasFailed gs a max i s t b e)
          (omega arith)))
  where
    go :
        (o : Option State)
        → ((t : State) → o ≡ some t → failing_boots (suc max) gs a max i t ≡ none)
        → (elim o [ none ↦ none | some t ↦ failing_boots (suc max) gs a max i t ]) ≡ none
    go none later = refl
    go (some t) later = later t refl

-- ===== src/Seal/Sealing.antt =====
-- What a successful seal of policy/guard.rs means.
use siratis_nmbl_bootloader.Prelude.{
  ℕ, ◌≡◌, refl, ap, ◌∙◌, ◌⊎◌, inl, inr, Bool, true, false, Option, none, some, List, [], ◌∷◌, arith,
  ◌==◌, if◌then◌else◌, Bool-cases, Outcome, ok, err, Mem, first, later,
}
use siratis_nmbl_bootloader.Seal.Registry.{MapperEntry, Store, snapshot, mark_closed}
use siratis_nmbl_bootloader.Seal.Guard.{
  closed_next, CapOutcome, capped, no_tpm, cap_failed, SealFailed, Os, cap_step, cap_policy,
  close_ran, close_one, close_entries, close_all, Guard, closed_guard, after_cap, seal_secrets,
}
use siratis_nmbl_bootloader.Seal.Drained.{retain_all, retain_all-empty, snapshot-Mem}

-- `cryptsetup close` confirmed, or said that there is no such mapper.
abbrev IsClosed : Os → MapperEntry → Type 0
IsClosed os e = (os.close e ≡ some 0) ⊎ (os.close e ≡ some 4)

ran-IsClosed :
    (e : MapperEntry) (o : Option ℕ) → close_ran e o ≡ ok tt → (o ≡ some 0) ⊎ (o ≡ some 4)
ran-IsClosed e none h = absurd (cc)
ran-IsClosed e (some n) h = elim (Bool-cases (n == 0)) [
  | inl z ↦ inl (ap some (ground arith))
  | inr z ↦ inr (ap some (ground arith))
]

-- Each entry was closed, and the list in memory is what is left.
abbrev IsDrained : Os → List MapperEntry → Store → Store → Type 0
IsDrained os entries before after =
    ((e : MapperEntry) → Mem e entries → IsClosed os e)
    × (after.mappers ≡ retain_all entries before.mappers)

entries-IsDrained :
    (os : Os) (entries : List MapperEntry) (store : Store)
    → (close_entries os entries store).0 ≡ ok tt
    → IsDrained os entries store (close_entries os entries store).1
unfolding close_entries mark_closed
entries-IsDrained os [] store h = (λ e m. elim m [ ], refl)
entries-IsDrained os (entry ∷ entries) store h =
    go (close_one os entry) refl
      (λ k. entries-IsDrained os entries (mark_closed (os.remove entry) entry.name store) k) h
  where
    rest : Outcome SealFailed (Unit {0}) × Store
    rest = close_entries os entries (mark_closed (os.remove entry) entry.name store)

    go :
        (r : Outcome SealFailed (Unit {0}))
        → close_one os entry ≡ r
        → (rest.0 ≡ ok tt
            → IsDrained os entries (mark_closed (os.remove entry) entry.name store) rest.1)
        → (closed_next r rest store).0 ≡ ok tt
        → IsDrained os (entry ∷ entries) store (closed_next r rest store).1
    go (err why) e ih q = absurd (cc)
    go (ok u) e ih q =
        let (closed, left) = ih q in
        (λ m k. all_closed m closed (ran-IsClosed entry (os.close entry) e) k, left)
      where
        all_closed :
            (m : MapperEntry)
            → ((k : MapperEntry) → Mem k entries → IsClosed os k)
            → IsClosed os entry
            → Mem m (entry ∷ entries)
            → IsClosed os m
        all_closed m c d first = d
        all_closed m c d (later k) = c m k

-- What stands behind a minted `Sealed`: the PCR is capped, now or before, or there is no TPM and none
-- is required; and every mapper of the snapshot was closed.
pub record IsSealed (os : Os) (require_tpm : Bool) (before after : Guard) : Type 0 where
  pub locked :
      (before.cap_latch ≡ true) ⊎ (os.cap ≡ capped) ⊎ ((os.cap ≡ no_tpm) × (require_tpm ≡ false))
  pub closed : (e : MapperEntry) → Mem e (snapshot os.load before.store) → IsClosed os e
  pub drained : after.store.mappers ≡ []
  pub latched : after.cap_latch ≡ true

cap_policy-ok :
    (require_tpm : Bool) (c : CapOutcome)
    → cap_policy require_tpm c ≡ ok tt
    → (c ≡ capped) ⊎ ((c ≡ no_tpm) × (require_tpm ≡ false))
cap_policy-ok require_tpm capped h = inl refl
cap_policy-ok true no_tpm h = absurd (cc)
cap_policy-ok false no_tpm h = inr (refl, refl)
cap_policy-ok require_tpm cap_failed h = absurd (cc)

-- Where the seal succeeds, the lock PCR is capped, by this seal or an earlier one, or there is no TPM
-- and none is required; closing was confirmed for every mapper of the snapshot, and none is left in
-- memory.
pub seal_secrets-IsSealed :
    (os : Os) (require_tpm : Bool) (guard : Guard)
    → (seal_secrets os require_tpm guard).0 ≡ ok tt
    → IsSealed os require_tpm guard (seal_secrets os require_tpm guard).1
unfolding seal_secrets close_all cap_step
seal_secrets-IsSealed os require_tpm guard h =
    go guard.cap_latch (cap_step os require_tpm) refl refl h
  where
    sealed :
        (guard.cap_latch ≡ true) ⊎ (os.cap ≡ capped) ⊎ ((os.cap ≡ no_tpm) × (require_tpm ≡ false))
        → (closed_guard (close_all os guard.store)).0 ≡ ok tt
        → IsSealed os require_tpm guard (closed_guard (close_all os guard.store)).1
    sealed how q =
        let (closed, left) = entries-IsDrained os (snapshot os.load guard.store) guard.store q in
        record {
          locked = how;
          closed = closed;
          drained =
              left
              ∙ retain_all-empty (snapshot os.load guard.store) guard.store.mappers
                  (λ m n. snapshot-Mem os.load guard.store n);
          latched = refl;
        }

    go :
        (b : Bool) (c : Outcome SealFailed (Unit {0}))
        → guard.cap_latch ≡ b
        → cap_step os require_tpm ≡ c
        → (after_cap os guard (if b then ok tt else c)).0 ≡ ok tt
        → IsSealed os require_tpm guard (after_cap os guard (if b then ok tt else c)).1
    go true c e f q = sealed (inl e) q
    go false (err why) e f q = absurd (cc)
    go false (ok u) e f q = sealed (inr (cap_policy-ok require_tpm os.cap f)) q

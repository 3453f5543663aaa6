-- ===== src/Update/Steps.antt =====
-- What a sequence of file-system calls ensures, whichever of them fail and wherever it is cut off.
use siratis_nmbl_bootloader.Prelude.{ℕ, ◌≡◌, refl, List, [], ◌∷◌, Outcome, ok, err}
use siratis_nmbl_bootloader.Update.Manifest.{Error}
use siratis_nmbl_bootloader.Update.Disk.{
  Root, World, M, Fate, done, torn, continue, ◌>>=◌, lift, look, call,
}

-- `Q` of a value and the state, `E` of the state after an error.
abbrev pub Post {ℓ} :
    {A : Type ℓ} → (A → Root → Type 0) → (Root → Type 0) → Outcome Error A × World → Type 0
Post Q E (ok a, w) = Q a w.root
Post Q E (err why, w) = E w.root

pub record Ensures {ℓ} {A : Type ℓ} (P : Root → Type 0) (m : M A) (Q : A → Root → Type 0)
    (E : Root → Type 0) : Type 0 where
  pub run : (w : World) → P w.root → Post Q E (m w)

-- What holds before holds after.
abbrev pub Keeps {ℓ} : {A : Type ℓ} → (Root → Type 0) → M A → Type 0
Keeps P m = Ensures P m (λ a. P) P

module _ {ℓ κ} {A : Type ℓ} {B : Type κ} where
  Post-continue :
      (Q : A → Root → Type 0) (R : B → Root → Type 0) (E : Root → Type 0) (next : A → M B)
      (result : Outcome Error A × World)
      → ((a : A) → Ensures (Q a) (next a) R E)
      → Post Q E result
      → Post R E (continue next result)
  Post-continue Q R E next (ok a, w) rest h = (rest a).run w h
  Post-continue Q R E next (err why, w) rest h = h

  pub Ensures-then :
      {P : Root → Type 0} {Q : A → Root → Type 0} {R : B → Root → Type 0} {E : Root → Type 0}
      {m : M A} {next : A → M B}
      → Ensures P m Q E
      → ((a : A) → Ensures (Q a) (next a) R E)
      → Ensures P (m >>= next) R E
  unfolding ◌>>=◌
  Ensures-then {Q} {R} {E} {m} {next} before rest = record {
    run = λ w h. Post-continue Q R E next (m w) rest (before.run w h);
  }

module _ {ℓ} {A : Type ℓ} where
  Post-lift :
      (P : Root → Type 0) (outcome : Outcome Error A) (w : World)
      → P w.root
      → Post (λ a. P) P (lift outcome w)
  unfolding lift
  Post-lift P (ok a) w h = h
  Post-lift P (err why) w h = h

  pub Keeps-lift : (P : Root → Type 0) (outcome : Outcome Error A) → Keeps P (lift outcome)
  Keeps-lift P outcome = record { run = Post-lift P outcome }

  Post-lift_Ensures :
      {P : Root → Type 0} {Q : A → Root → Type 0} {E : Root → Type 0} (outcome : Outcome Error A)
      → ((a : A) → outcome ≡ ok a → (root : Root) → P root → Q a root)
      → ((root : Root) → P root → E root)
      → (w : World) → P w.root
      → Post Q E (lift outcome w)
  unfolding lift
  Post-lift_Ensures (ok a) value error w h = value a refl w.root h
  Post-lift_Ensures (err why) value error w h = error w.root h

  -- A value that the state has no part in, with the equation that it comes from.
  pub lift-Ensures :
      {P : Root → Type 0} {Q : A → Root → Type 0} {E : Root → Type 0} (outcome : Outcome Error A)
      → ((a : A) → outcome ≡ ok a → (root : Root) → P root → Q a root)
      → ((root : Root) → P root → E root)
      → Ensures P (lift outcome) Q E
  lift-Ensures outcome value error = record { run = Post-lift_Ensures outcome value error }

  Post-both :
      (P : Root → Type 0) (Q : A → Root → Type 0) (E : Root → Type 0)
      (result : Outcome Error A × World)
      → Post (λ a. P) P result
      → Post Q E result
      → Post (λ a r. P r × Q a r) P result
  Post-both P Q E (ok a, w) h k = (h, k)
  Post-both P Q E (err why, w) h k = h

  -- What is kept, together with what is ensured.
  pub Ensures-both :
      {P S : Root → Type 0} {Q : A → Root → Type 0} {E : Root → Type 0} {m : M A}
      → Keeps P m
      → Ensures S m Q E
      → Ensures (λ r. P r × S r) m (λ a r. P r × Q a r) P
  Ensures-both {P} {Q} {E} {m} kept given = record {
    run = λ w h. Post-both P Q E (m w) (kept.run w h.0) (given.run w h.1);
  }

  Post-weaken :
      {Q R : A → Root → Type 0} {E F : Root → Type 0} (result : Outcome Error A × World)
      → ((a : A) (root : Root) → Q a root → R a root)
      → ((root : Root) → E root → F root)
      → Post Q E result
      → Post R F result
  Post-weaken (ok a, w) value error h = value a w.root h
  Post-weaken (err why, w) value error h = error w.root h

  pub Ensures-weaken :
      {P : Root → Type 0} {Q R : A → Root → Type 0} {E F : Root → Type 0} {m : M A}
      → Ensures P m Q E
      → ((a : A) (root : Root) → Q a root → R a root)
      → ((root : Root) → E root → F root)
      → Ensures P m R F
  Ensures-weaken {m} e value error = record {
    run = λ w h. Post-weaken (m w) value error (e.run w h);
  }

  -- What is looked at is the state.
  pub Ensures-look :
      {P : Root → Type 0} {R : A → Root → Type 0} {E : Root → Type 0} {next : Root → M A}
      → ((root : Root) → Ensures (λ r. (r ≡ root) × P r) (next root) R E)
      → Ensures P (look >>= next) R E
  unfolding ◌>>=◌ look
  Ensures-look {P} {R} {E} {next} rest = record { run = λ w h. (rest w.root).run w (refl, h) }

  pub Keeps-look :
      {P : Root → Type 0} {next : Root → M A}
      → ((root : Root) → Keeps P (next root))
      → Keeps P (look >>= next)
  unfolding ◌>>=◌ look
  Keeps-look {P} {next} rest = record { run = λ w h. (rest w.root).run w h }

module _ (P : Root → Type 0) (all : Root → Root) (part : ℕ → Root → Root) where
  -- A call by what it does, what a failed one leaves, and what holds of no change.
  pub call-Ensures :
      (Q : Root → Type 0) (E : Root → Type 0)
      → ((root : Root) → P root → Q (all root))
      → ((n : ℕ) (root : Root) → P root → E (part n root))
      → ((root : Root) → P root → E root)
      → Ensures P (call all part) (λ a. Q) E
  unfolding call
  call-Ensures Q E full partly stopped = record { run = λ w h. go w.root w.fates h }
    where
      go :
          (root : Root) (fates : List Fate)
          → P root
          → Post (λ a. Q) E (call all part (record { root = root; fates = fates }))
      go root [] h = stopped root h
      go root (done ∷ fates) h = full root h
      go root (torn n ∷ fates) h = partly n root h

  pub call-Keeps :
      ((root : Root) → P root → P (all root))
      → ((n : ℕ) (root : Root) → P root → P (part n root))
      → Keeps P (call all part)
  call-Keeps full partly = call-Ensures P P full partly (λ root h. h)

-- A fact that the state has no part in.
pub Ensures-given {ℓ} :
    {A : Type ℓ} {F : Type 0} {P : Root → Type 0} {Q : A → Root → Type 0} {E : Root → Type 0}
    {m : M A}
    → (F → Ensures P m Q E)
    → Ensures (λ r. P r × F) m Q E
Ensures-given {m} rest = record { run = λ w h. (rest (h.1)).run w (h.0) }

-- The same with what holds before taken in a stronger form.
pub Ensures-from {ℓ} :
    {A : Type ℓ} {P S : Root → Type 0} {Q : A → Root → Type 0} {E : Root → Type 0} {m : M A}
    → ((root : Root) → S root → P root)
    → Ensures P m Q E
    → Ensures S m Q E
Ensures-from {m} stronger e = record { run = λ w h. e.run w (stronger w.root h) }

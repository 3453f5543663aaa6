-- ===== src/Prelude/Membership.antt =====
-- A value stands in a list.
use mathlib.Core.List.{List, [], ◌∷◌, ◌++◌}
use mathlib.Core.Logic.{◌⊎◌, inl, inr, ◌↔◌}
use mathlib.Core.Path.{◌≡◌, refl}
use mathlib.Core.Bool.{Bool, true, false, ◌||◌}
use siratis_nmbl_bootloader.Prelude.Lists.{any}

pub data Mem {ℓ} {A : Type ℓ} (a : A) : List A → Type ℓ where
  first : {xs : List A} → Mem a (a ∷ xs)
  later : {x : A} {xs : List A} → Mem a xs → Mem a (x ∷ xs)

module _ {ℓ} {A : Type ℓ} where
  pub Mem-append : {a : A} (xs ys : List A) → Mem a (xs ++ ys) → Mem a xs ⊎ Mem a ys
  Mem-append [] ys m = inr m
  Mem-append (x ∷ xs) ys first = inl first
  Mem-append (x ∷ xs) ys (later m) = elim (Mem-append xs ys m) [
    | inl a ↦ inl (later a)
    | inr b ↦ inr b
  ]

  pub Mem-append_left : {a : A} {xs : List A} (ys : List A) → Mem a xs → Mem a (xs ++ ys)
  Mem-append_left ys first = first
  Mem-append_left ys (later m) = later (Mem-append_left ys m)

  pub Mem-append_right : {a : A} (xs : List A) {ys : List A} → Mem a ys → Mem a (xs ++ ys)
  Mem-append_right [] m = m
  Mem-append_right (x ∷ xs) m = later (Mem-append_right xs m)

pub any_iff {ℓ} :
    {A : Type ℓ} (p : A → Bool) (xs : List A)
    → (any p xs ≡ true) ↔ ((x : A) × Mem x xs × (p x ≡ true))
any_iff p [] = (λ h. absurd (cc), λ (x, m, e). elim m [ ])
any_iff {A = A} p (x ∷ xs) = (there (p x) refl (any_iff p xs).0, back (any_iff p xs).1)
  where
    there :
        (b : Bool)
        → p x ≡ b
        → (any p xs ≡ true → (y : A) × Mem y xs × (p y ≡ true))
        → (b || any p xs) ≡ true
        → (y : A) × Mem y (x ∷ xs) × (p y ≡ true)
    there true e ih h = (x, first, e)
    there false e ih h = let (y, m, q) = ih h in (y, later m, q)

    or_true : (b : Bool) → (b || true) ≡ true
    or_true true = refl
    or_true false = refl

    back :
        ((y : A) × Mem y xs × (p y ≡ true) → any p xs ≡ true)
        → (y : A) × Mem y (x ∷ xs) × (p y ≡ true)
        → (p x || any p xs) ≡ true
    back ih (y, first, q) = rw q refl
    back ih (y, later m, q) = rw (ih (y, m, q)) (or_true (p x))

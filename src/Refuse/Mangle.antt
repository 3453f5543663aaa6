-- ===== src/Refuse/Mangle.antt =====
-- The volume group read back from the name that device-mapper gives a logical volume.
use siratis_nmbl_bootloader.Prelude.{
  ℕ, ◌≡◌, refl, sym, ap, ◌∙◌, ◌≢◌, inl, inr, some, [], ◌∷◌, ◌++◌, append-nil, append_assoc, arith,
  ◌==◌, if◌then◌else◌, Bool-cases, Bytes,
}
use siratis_nmbl_bootloader.Refuse.Argv.{vg_loop, vg_from_mangled}

-- How LVM joins the two names: each dash is doubled, and a single one stands between them.
abbrev pub mangle : Bytes → Bytes
mangle [] = []
mangle (c ∷ text) = (if c == b'-' then b'-' ∷ b'-' ∷ [] else c ∷ []) ++ mangle text

-- A name that LVM allows: it is not empty and does not begin with a dash.
abbrev pub IsName : Bytes → Type 0
IsName [] = ⊥
IsName (c ∷ text) = c ≢ b'-'

vg_loop-separator : (lv vg : Bytes) → IsName lv → vg ≢ [] → vg_loop (b'-' ∷ mangle lv) vg ≡ some vg
unfolding vg_loop
vg_loop-separator [] vg h k = absurd h
vg_loop-separator (c ∷ lv) [] h k = absurd (k refl)
vg_loop-separator (c ∷ lv) (x ∷ vg) h k = ground arith

vg_loop-plain :
    (c : ℕ) (rest vg : Bytes)
    → c ≢ b'-'
    → rest ≢ []
    → vg_loop (c ∷ rest) vg ≡ vg_loop rest (vg ++ (c ∷ []))
unfolding vg_loop
vg_loop-plain c [] vg other some_left = absurd (some_left refl)
vg_loop-plain c (d ∷ rest) vg other some_left = ground arith

vg_loop-dashes :
    (rest vg : Bytes) → vg_loop (b'-' ∷ b'-' ∷ rest) vg ≡ vg_loop rest (vg ++ (b'-' ∷ []))
unfolding vg_loop
vg_loop-dashes rest vg = refl

append-ne-nil : (front : Bytes) (c : ℕ) (back : Bytes) → front ++ (c ∷ back) ≢ []
append-ne-nil [] c back h = cc
append-ne-nil (x ∷ front) c back h = cc

vg_loop-mangle :
    (name lv vg : Bytes)
    → IsName lv
    → vg ++ name ≢ []
    → vg_loop (mangle name ++ (b'-' ∷ mangle lv)) vg ≡ some (vg ++ name)
vg_loop-mangle [] lv vg h k =
    vg_loop-separator lv vg h (λ e. k (append-nil vg ∙ e)) ∙ ap some (sym (append-nil vg))
vg_loop-mangle (c ∷ name) lv vg h k = elim (Bool-cases (c == b'-')) [
  | inl dash ↦
      let e : c ≡ b'-' = ground arith in
      rw dash (
        vg_loop-dashes (mangle name ++ (b'-' ∷ mangle lv)) vg
        ∙ vg_loop-mangle name lv (vg ++ (b'-' ∷ [])) h (next (b'-'))
        ∙ ap some (append_assoc vg (b'-' ∷ []) name ∙ ap (λ (x : ℕ). vg ++ (x ∷ name)) (sym e)))
  | inr plain ↦ rw plain (
      vg_loop-plain c (mangle name ++ (b'-' ∷ mangle lv)) vg (ground arith)
        (append-ne-nil (mangle name) (b'-') (mangle lv))
      ∙ vg_loop-mangle name lv (vg ++ (c ∷ [])) h (next c)
      ∙ ap some (append_assoc vg (c ∷ []) name))
]
  where
    next : (x : ℕ) → (vg ++ (x ∷ [])) ++ name ≢ []
    next x e = append-ne-nil vg x name (sym (append_assoc vg (x ∷ []) name) ∙ e)

-- The volume group that is read from the device-mapper name of a logical volume is the volume's own,
-- whatever dashes the two names hold, if neither is empty and the volume's does not begin with a dash.
pub vg_from_mangled-mangle :
    (vg lv : Bytes)
    → vg ≢ []
    → IsName lv
    → vg_from_mangled (mangle vg ++ (b'-' ∷ mangle lv)) ≡ some vg
unfolding vg_from_mangled
vg_from_mangled-mangle vg lv present h = vg_loop-mangle vg lv [] h present

-- ===== src/Refuse/ReadOnly.antt =====
-- The options that the gate mounts its volume with.
use siratis_nmbl_bootloader.Prelude.{
  ◌≡◌, refl, ◌≢◌, inl, inr, true, List, [], ◌∷◌, ◌++◌, arith, if◌then◌else◌, Bool-cases, any, Bytes,
  bytes_eq, codes, is_empty,
}
use siratis_nmbl_bootloader.Refuse.Gate.{on_comma, split_commas, has_ro, ensure_ro}

split_commas-ne-nil : (text : Bytes) → split_commas text ≢ []
unfolding split_commas
split_commas-ne-nil [] h = cc h
split_commas-ne-nil (c ∷ text) h = go (split_commas text) h
  where
    go : (pieces : List Bytes) → on_comma c pieces ≢ []
    go [] k = cc
    go (piece ∷ rest) k = ground arith

read_only_first :
    (pieces : List Bytes)
    → pieces ≢ []
    → any
        (λ o. bytes_eq o (codes "ro"))
        (on_comma (b'r') (on_comma (b'o') (on_comma (b',') pieces)))
      ≡ true
read_only_first [] h = absurd (h refl)
read_only_first (piece ∷ rest) h = refl

-- The mount that the gate makes is read-only, whatever options the volume is configured with.
pub ensure_ro-has_ro : (options : Bytes) → has_ro (ensure_ro options) ≡ true
unfolding ensure_ro split_commas
ensure_ro-has_ro options = elim (Bool-cases (has_ro options)) [
  | inl there ↦ rw there there
  | inr absent ↦ rw absent (go options)
]
  where
    go : (text : Bytes) → has_ro (if is_empty text then codes "ro" else codes "ro," ++ text) ≡ true
    go [] = refl
    go (c ∷ text) = read_only_first (split_commas (c ∷ text)) (split_commas-ne-nil (c ∷ text))

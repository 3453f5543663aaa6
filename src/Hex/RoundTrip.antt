-- ===== src/Hex/RoundTrip.antt =====
-- util/hex.rs: the two directions together.
use siratis_nmbl_bootloader.Prelude.{
  ℕ, zero, suc, ◌+◌, ◌*◌, ◌/◌, ◌%◌, ◌<◌, ◌≡◌, refl, ap, ap₂, subst, ◌∙◌, ◌&&◌, Option, none, some,
  [], ◌∷◌, map, arith, leb, if◌then◌else◌, length, Bytes, AllBytes,
}
use siratis_nmbl_bootloader.Hex.{
  digit, hex_lower, nibble, join_nibbles, prepend, decode_slots, decode_fixed,
}

nibble-digit : (n : ℕ) → n < 16 → nibble (digit n) ≡ some n
unfolding nibble
nibble-digit n h = ground arith

length-hex_lower : (bytes : Bytes) → length (hex_lower bytes) ≡ length bytes * 2
unfolding hex_lower
length-hex_lower [] = refl
length-hex_lower (b ∷ bytes) = omega (arith, length-hex_lower bytes)

decode_slots-hex_lower :
    (bytes : Bytes) → AllBytes bytes → decode_slots (length bytes) (hex_lower bytes) ≡ some bytes
unfolding hex_lower decode_slots
decode_slots-hex_lower [] h = refl
decode_slots-hex_lower (b ∷ bytes) h =
    rw
      (
        nibble-digit (b / 16) (omega arith),
        nibble-digit (b % 16) (omega arith),
        decode_slots-hex_lower bytes h.1,
      )
      (ap (λ x. some (x ∷ bytes)) (omega arith))

-- Bytes below 256, printed as lowercase hexadecimal, are decoded to the same bytes.
pub decode_fixed-hex_lower :
    (bytes : Bytes) → AllBytes bytes → decode_fixed (length bytes) (hex_lower bytes) ≡ some bytes
unfolding decode_fixed
decode_fixed-hex_lower bytes h =
    ground (arith, length-hex_lower bytes, decode_slots-hex_lower bytes h)

-- The lowercase form of a digit.
abbrev pub lower : ℕ → ℕ
lower c = if leb b'A' c && leb c b'F' then c + 32 else c

digit-nibble : (c n : ℕ) → nibble c ≡ some n → (n < 16) × (digit n ≡ lower c)
unfolding nibble
digit-nibble c n h = ground arith

-- What a successful decoding of `n` slots is.
abbrev IsDecoded : ℕ → Bytes → Bytes → Type 0
IsDecoded n s bytes = (length bytes ≡ n) × AllBytes bytes × (hex_lower bytes ≡ map lower s)

IsDecoded-cons :
    (n hi lo : ℕ) (s bytes : Bytes) (h l : Option ℕ) (rest : Option Bytes)
    → nibble hi ≡ h
    → nibble lo ≡ l
    → ((r : Bytes) → rest ≡ some r → IsDecoded n s r)
    → prepend (join_nibbles h l) rest ≡ some bytes
    → IsDecoded (suc n) (hi ∷ lo ∷ s) bytes
unfolding hex_lower
IsDecoded-cons n hi lo s bytes none l rest eh el ih p = absurd (cc)
IsDecoded-cons n hi lo s bytes (some h) none rest eh el ih p = absurd (cc)
IsDecoded-cons n hi lo s bytes (some h) (some l) none eh el ih p = absurd (cc)
IsDecoded-cons n hi lo s bytes (some h) (some l) (some r) eh el ih p =
    let (size, all, text) = ih r refl in
    let (h16, hd) = digit-nibble hi h eh in
    let (l16, ld) = digit-nibble lo l el in
    let high : (h * 16 + l) / 16 ≡ h = omega arith in
    let low : (h * 16 + l) % 16 ≡ l = omega arith in
    subst (IsDecoded (suc n) (hi ∷ lo ∷ s)) (some_eq p) (
      omega (arith, size),
      (omega arith, all),
      ap₂ ◌∷◌ (ap digit high ∙ hd) (ap₂ ◌∷◌ (ap digit low ∙ ld) text),
    )
  where
    some_eq : some ((h * 16 + l) ∷ r) ≡ some bytes → (h * 16 + l) ∷ r ≡ bytes
    some_eq q = cc

decode_slots-some :
    (n : ℕ) (s bytes : Bytes)
    → length s ≡ n * 2
    → decode_slots n s ≡ some bytes
    → IsDecoded n s bytes
unfolding decode_slots hex_lower
decode_slots-some zero [] bytes l h = subst (IsDecoded 0 []) (some_nil h) (refl, tt, refl)
  where
    some_nil : some [] ≡ some bytes → [] ≡ bytes
    some_nil q = cc
decode_slots-some zero (c ∷ s) bytes l h = absurd (omega arith)
decode_slots-some (suc n) [] bytes l h = absurd (cc)
decode_slots-some (suc n) (hi ∷ []) bytes l h = absurd (cc)
decode_slots-some (suc n) (hi ∷ lo ∷ s) bytes l h =
    IsDecoded-cons n hi lo s bytes (nibble hi) (nibble lo) (decode_slots n s) refl refl
      (λ r e. decode_slots-some n s r (omega arith) e) h

-- A text that is decoded to `n` bytes is two characters for each, the bytes are below 256, and
-- printing them gives the text back in lower case.
pub decode_fixed-some :
    (n : ℕ) (s bytes : Bytes)
    → decode_fixed n s ≡ some bytes
    → (length s ≡ n * 2) × (length bytes ≡ n) × AllBytes bytes × (hex_lower bytes ≡ map lower s)
unfolding decode_fixed
decode_fixed-some n s bytes h =
    let size : length s ≡ n * 2 = ground arith in
    let (a, b, c) = decode_slots-some n s bytes size (ground arith) in (size, a, b, c)

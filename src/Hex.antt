-- ===== src/Hex.antt =====
-- util/hex.rs: lowercase hexadecimal of byte strings.
pub mod RoundTrip
mod Tests
use siratis_nmbl_bootloader.Prelude.{
  ℕ, zero, suc, ◌+◌, ◌-◌, ◌*◌, ◌/◌, ◌%◌, ◌&&◌, Option, none, some, [], ◌∷◌, ltb, leb, ◌==◌,
  if◌then◌else◌, length, Bytes,
}

-- The lookup in `TABLE`, "0123456789abcdef".
abbrev pub digit : ℕ → ℕ
digit n = if ltb n 10 then b'0' + n else if ltb n 16 then b'a' + (n - 10) else b'?'

unfoldable pub hex_lower : Bytes → Bytes
hex_lower [] = []
hex_lower (b ∷ bytes) = digit (b / 16) ∷ digit (b % 16) ∷ hex_lower bytes

unfoldable pub nibble : ℕ → Option ℕ
nibble c =
    if leb b'0' c && leb c b'9'
    then some (c - b'0')
    else if leb b'a' c && leb c b'f'
    then some (c - b'a' + 10)
    else if leb b'A' c && leb c b'F'
    then some (c - b'A' + 10)
    else none

abbrev pub join_nibbles : Option ℕ → Option ℕ → Option ℕ
join_nibbles none lo = none
join_nibbles (some hi) none = none
join_nibbles (some hi) (some lo) = some (hi * 16 + lo)

abbrev pub prepend : Option ℕ → Option Bytes → Option Bytes
prepend none rest = none
prepend (some b) none = none
prepend (some b) (some rest) = some (b ∷ rest)

-- The loop that fills the `n` slots.
unfoldable pub decode_slots : ℕ → Bytes → Option Bytes
decode_slots zero s = some []
decode_slots (suc n) [] = none
decode_slots (suc n) (hi ∷ []) = none
decode_slots (suc n) (hi ∷ lo ∷ s) =
    prepend (join_nibbles (nibble hi) (nibble lo)) (decode_slots n s)

unfoldable pub decode_fixed : ℕ → Bytes → Option Bytes
decode_fixed n s = if length s == n * 2 then decode_slots n s else none

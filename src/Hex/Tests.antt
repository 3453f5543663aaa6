-- ===== src/Hex/Tests.antt =====
-- The hexadecimal routines at concrete inputs.
use siratis_nmbl_bootloader.Prelude.{ℕ, ◌*◌, ◌≡◌, refl, none, [], ◌∷◌, map, length, AllBytes}
use siratis_nmbl_bootloader.Hex.{hex_lower, decode_fixed, decode_slots, nibble}
use siratis_nmbl_bootloader.Hex.RoundTrip.{decode_fixed-some, lower}

decode_fixed-some_example :
    (length {A = ℕ} (b'A' ∷ b'b' ∷ []) ≡ 1 * 2)
    × (length {A = ℕ} (171 ∷ []) ≡ 1)
    × AllBytes (171 ∷ [])
    × (hex_lower (171 ∷ []) ≡ map lower (b'A' ∷ b'b' ∷ []))
unfolding decode_fixed decode_slots nibble
decode_fixed-some_example = decode_fixed-some 1 (b'A' ∷ b'b' ∷ []) (171 ∷ []) refl

odd_text : decode_fixed 1 (b'a' ∷ []) ≡ none
unfolding decode_fixed decode_slots nibble
odd_text = refl

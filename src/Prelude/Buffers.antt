-- ===== src/Prelude/Buffers.antt =====
-- Byte buffers as lists of numbers below 256: ranges, fixed-width writes and integer encodings.
use Prim.Native.Nat.{ℕ, ◌+◌, ◌-◌, ◌*◌, ◌/◌, ◌%◌, ◌<◌}
use mathlib.Core.Path.{◌≡◌, refl}
use mathlib.Core.List.{List, [], ◌∷◌, ◌++◌}
use mathlib.Core.Option.{Option, none, some}
use mathlib.Core.Bool.{Bool, true, false, ◌&&◌}
use native.Mathlib.Omega.{arith}
use siratis_nmbl_bootloader.Prelude.Tests.{leb, ◌==◌, if◌then◌else◌}
use siratis_nmbl_bootloader.Prelude.Lists.{length, take, drop}

abbrev pub Bytes : Type 0
Bytes = List ℕ

-- `is_empty()`
abbrev pub is_empty : Bytes → Bool
is_empty [] = true
is_empty (c ∷ bytes) = false

-- `buf.get(a..b)`
abbrev pub get_range : ℕ → ℕ → Bytes → Option Bytes
get_range a b buf = if leb a b && leb b (length buf) then some (take (b - a) (drop a buf)) else none

-- `buf.split_at_checked(n)`
abbrev pub split_at_checked : ℕ → Bytes → Option (Bytes × Bytes)
split_at_checked n buf = if leb n (length buf) then some (take n buf, drop n buf) else none

-- `if let Some(s) = out.get_mut(a..b) { s.copy_from_slice(bytes) }`
abbrev pub write_range : ℕ → ℕ → Bytes → Bytes → Bytes
write_range a b bytes out =
    if leb a b && leb b (length out) then take a out ++ (bytes ++ drop b out) else out

-- `==` on slices.
abbrev pub bytes_eq : Bytes → Bytes → Bool
bytes_eq [] [] = true
bytes_eq [] (y ∷ ys) = false
bytes_eq (x ∷ xs) [] = false
bytes_eq (x ∷ xs) (y ∷ ys) = (x == y) && bytes_eq xs ys

pub bytes_eq_refl : (xs : Bytes) → bytes_eq xs xs ≡ true
bytes_eq_refl [] = refl
bytes_eq_refl (x ∷ xs) = ground (arith, bytes_eq_refl xs)

pub bytes_eq→eq : (xs ys : Bytes) → bytes_eq xs ys ≡ true → xs ≡ ys
bytes_eq→eq [] [] h = refl
bytes_eq→eq [] (y ∷ ys) h = ground arith
bytes_eq→eq (x ∷ xs) [] h = ground arith
bytes_eq→eq (x ∷ xs) (y ∷ ys) h = ground (arith, bytes_eq→eq xs ys)

abbrev pub u16_to_be : ℕ → Bytes
u16_to_be n = n / 256 % 256 ∷ n % 256 ∷ []

abbrev pub u16_from_be : ℕ → ℕ → ℕ
u16_from_be hi lo = hi * 256 + lo

abbrev pub u32_to_le : ℕ → Bytes
u32_to_le n = n % 256 ∷ n / 256 % 256 ∷ n / 65536 % 256 ∷ n / 16777216 % 256 ∷ []

-- `u32::from_le_bytes`, of a slice that was converted to four bytes.
abbrev pub u32_from_le : Bytes → Option ℕ
u32_from_le (a ∷ b ∷ c ∷ d ∷ []) = some (a + b * 256 + c * 65536 + d * 16777216)
u32_from_le _ = none

pub u32_le_round : (n : ℕ) → n < 4294967296 → u32_from_le (u32_to_le n) ≡ some n
u32_le_round n h = ground arith

-- A value in the range of a byte.
abbrev pub AllBytes : Bytes → Type 0
AllBytes [] = Unit
AllBytes (x ∷ xs) = (x < 256) × AllBytes xs

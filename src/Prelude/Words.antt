-- ===== src/Prelude/Words.antt =====
-- Machine integers: ranges, and the saturating and wrapping operations of Rust's types.
use Prim.Native.Nat.{ℕ, ◌+◌, ◌≤◌}
use native.Mathlib.Omega.{arith}
use siratis_nmbl_bootloader.Prelude.Tests.{leb, if◌then◌else◌}

abbrev pub u32_max : ℕ
u32_max = 4294967295

abbrev pub u64_max : ℕ
u64_max = 18446744073709551615

-- `saturating_add` of an unsigned type whose largest value is `top`.
abbrev pub saturating_add : ℕ → ℕ → ℕ → ℕ
saturating_add top a b = if leb (a + b) top then a + b else top

pub saturating_add-le : (top a b : ℕ) → saturating_add top a b ≤ top
saturating_add-le top a b = ground arith

-- ===== src/Prelude/Words.antt =====
-- Unsigned machine words as native numbers: the bounds, and arithmetic that saturates.
use Prim.Native.Nat.{ℕ, ◌+◌, ◌-◌, ◌^◌, ◌≤◌}
use mathlib.Core.Path.{◌≡◌}
use native.Mathlib.Omega.{arith}
use dna_db.Prelude.Tests.{ltb, if◌then◌else◌}

abbrev pub u16_max : ℕ
u16_max = 2 ^ 16 - 1

abbrev pub u32_max : ℕ
u32_max = 2 ^ 32 - 1

abbrev pub u64_max : ℕ
u64_max = 2 ^ 64 - 1

-- `u64::saturating_add`, and that of a `usize` of 64 bits
unfoldable pub saturating_add : ℕ → ℕ → ℕ
saturating_add a b = if ltb u64_max (a + b) then u64_max else a + b

-- The sum is bounded, is not below `a` where `a` is a `u64`, and is exact where it fits.
pub saturating_add_lem :
    (a b : ℕ) → (saturating_add a b ≤ u64_max) × (a ≤ u64_max → a ≤ saturating_add a b)
unfolding saturating_add
saturating_add_lem a b = ground arith

pub saturating_add_fits : (a b : ℕ) → a + b ≤ u64_max → saturating_add a b ≡ a + b
unfolding saturating_add
saturating_add_fits a b h = ground arith

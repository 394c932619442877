-- ===== src/Words.antt =====
-- Machine words as native numbers below 2 ^ w, and Rust's saturating operations on them.
-- `saturating_sub` is the subtraction of ℕ, which stops at 0.
use rustgrid_agent.Prelude.{ℕ, ◌+◌, ◌-◌, ◌*◌, ◌≤◌, ◌<◌, ◌≡◌, min, arith}

abbrev pub u32_max : ℕ
u32_max = 4294967295

abbrev pub u64_max : ℕ
u64_max = 18446744073709551615

unfoldable pub saturating_add_u32 : ℕ → ℕ → ℕ
saturating_add_u32 a b = min (a + b) u32_max

unfoldable pub saturating_add_u64 : ℕ → ℕ → ℕ
saturating_add_u64 a b = min (a + b) u64_max

unfoldable pub saturating_mul_u64 : ℕ → ℕ → ℕ
saturating_mul_u64 a b = min (a * b) u64_max

unfoldable pub saturating_sub : ℕ → ℕ → ℕ
saturating_sub a b = a - b

-- A saturated sum below the largest word is the sum itself.
pub saturating_add_u32-exact :
    (a b m : ℕ) → saturating_add_u32 a b ≤ m → m < u32_max → saturating_add_u32 a b ≡ a + b
unfolding saturating_add_u32
saturating_add_u32-exact a b m h k = omega arith

pub saturating_add_u64-exact :
    (a b m : ℕ) → saturating_add_u64 a b ≤ m → m < u64_max → saturating_add_u64 a b ≡ a + b
unfolding saturating_add_u64
saturating_add_u64-exact a b m h k = omega arith

-- ===== src/Prelude/Words.antt =====
-- Machine words as native numbers: `u32` and `u64` are below their modulus, `+` and `+=` wrap (the
-- release profile has no overflow checks), `saturating_sub` is the truncated subtraction of ℕ.
use Prim.Native.Nat.{ℕ, ◌+◌, ◌-◌, ◌%◌, ◌^◌, ◌<◌, min}
use mathlib.Core.Path.{◌≡◌}
use native.Mathlib.Omega.{arith}

abbrev pub u32_mod : ℕ
u32_mod = 2 ^ 32

abbrev pub u64_mod : ℕ
u64_mod = 2 ^ 64

-- `a + b` on `u64`
unfoldable pub add_u64 : ℕ → ℕ → ℕ
add_u64 a b = (a + b) % u64_mod

-- `a + b` on `u32`
unfoldable pub add_u32 : ℕ → ℕ → ℕ
add_u32 a b = (a + b) % u32_mod

-- `a - b` on `u64`, which wraps
unfoldable pub sub_u64 : ℕ → ℕ → ℕ
sub_u64 a b = (a + u64_mod - b) % u64_mod

-- `saturating_add` on `u64`
unfoldable pub saturating_add : ℕ → ℕ → ℕ
saturating_add a b = min (a + b) (u64_mod - 1)

pub add_u64-lt : (a b : ℕ) → add_u64 a b < u64_mod
unfolding add_u64
add_u64-lt a b = omega arith

pub add_u32-lt : (a b : ℕ) → add_u32 a b < u32_mod
unfolding add_u32
add_u32-lt a b = omega arith

pub add_u64_of_lt : (a b : ℕ) → a + b < u64_mod → add_u64 a b ≡ a + b
unfolding add_u64
add_u64_of_lt a b h = omega arith

pub add_u32_of_lt : (a b : ℕ) → a + b < u32_mod → add_u32 a b ≡ a + b
unfolding add_u32
add_u32_of_lt a b h = omega arith

-- ===== src/Prelude/Signed.antt =====
-- `i64` in two's complement: a word below 2 ^ 64, negative from 2 ^ 63. `+`, `-` and `*` wrap.
use Prim.Native.Nat.{ℕ, ◌+◌, ◌-◌, ◌*◌, ◌%◌, ◌^◌}
use mathlib.Core.Bool.{Bool}
use flowlab.Prelude.Tests.{ltb, leb, if◌then◌else◌}
use flowlab.Prelude.Words.{u64_mod}

abbrev pub sign_bit : ℕ
sign_bit = 2 ^ 63

unfoldable pub neg_i64 : ℕ → ℕ
neg_i64 x = (u64_mod - x) % u64_mod

unfoldable pub mul_i64 : ℕ → ℕ → ℕ
mul_i64 x y = (x * y) % u64_mod

-- `abs` in the release profile: the least value is its own
unfoldable pub abs_i64 : ℕ → ℕ
unfolding neg_i64
abs_i64 x = if leb sign_bit x then neg_i64 x else x

-- `<` on `i64`
unfoldable pub ltb_i64 : ℕ → ℕ → Bool
ltb_i64 x y = ltb ((x + sign_bit) % u64_mod) ((y + sign_bit) % u64_mod)

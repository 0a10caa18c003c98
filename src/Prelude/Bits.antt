-- ===== src/Prelude/Bits.antt =====
-- Masks of powers of two, and indices that wrap around.
use Prim.Native.Nat.{
  ℕ, zero, suc, ◌+◌, ◌-◌, ◌*◌, ◌/◌, ◌%◌, ◌^◌, ◌≤◌, ◌<◌, min, bit_and, digits, bit_and-bitwise,
}
use mathlib.Core.Path.{◌≡◌, ap, ap₂, sym, ◌∙◌}
use mathlib.Core.Logic.{◌⊎◌, inl, inr}
use native.Mathlib.Omega.{arith}
use native.Mathlib.Nat.{
  mod-lt, mod-eq_of_lt, mod-eq-sub-mod, mod-add-mod, mul-add-mod_self_left, div-add-mod, zero-mod,
  pow-suc,
}
use flowlab.Prelude.Tests.{ltb, Bool-cases}

pub pow_pos : (k : ℕ) → 0 < 2 ^ k
pow_pos zero = omega arith
pow_pos (suc k) = omega (arith, pow_pos k, pow-suc 2 k)

-- A number is its half and its lowest digit, also modulo twice `m`.
half_mod : (x m : ℕ) → 0 < m → x / 2 % m * 2 + x % 2 ≡ x % (m * 2)
half_mod x m pos =
    let q = x / 2 / m in
    let r = x / 2 % m in
    let small : r < m = mod-lt (x / 2) pos in
    let split : m * q + r ≡ x / 2 = div-add-mod (x / 2) m in
    let whole : x ≡ m * 2 * q + (r * 2 + x % 2) = grind (arith, split) in
    sym (
      ap (λ n. n % (m * 2)) whole
      ∙ mul-add-mod_self_left (m * 2) q (r * 2 + x % 2)
      ∙ mod-eq_of_lt (omega (arith, small)))

digits-mask : (k n a : ℕ) → a ≤ n → digits (λ b. zero) min n a (2 ^ k - 1) ≡ a % 2 ^ k
digits-mask k zero zero h = sym (zero-mod (2 ^ k))
digits-mask k zero (suc a) h = absurd (omega arith)
digits-mask k (suc n) zero h = sym (zero-mod (2 ^ k))
digits-mask zero (suc n) (suc a) h = omega (arith, digits-mask zero n (suc a / 2) (omega arith))
digits-mask (suc k) (suc n) (suc a) h =
    let pos = pow_pos k in
    let double : 2 ^ suc k ≡ 2 ^ k * 2 = pow-suc 2 k in
    let half : (2 ^ suc k - 1) / 2 ≡ 2 ^ k - 1 = omega (arith, double, pos) in
    let odd : (2 ^ suc k - 1) % 2 ≡ 1 = omega (arith, double, pos) in
    ap₂ (λ b d. digits (λ c. zero) min n (suc a / 2) b * 2 + min (suc a % 2) d) half odd
    ∙ ap (λ d. d * 2 + min (suc a % 2) 1) (digits-mask k n (suc a / 2) (omega arith))
    ∙ ap (λ d. suc a / 2 % 2 ^ k * 2 + d) digit
    ∙ half_mod (suc a) (2 ^ k) pos
    ∙ ap (λ m. suc a % m) (sym double)
  where
    digit : min (suc a % 2) 1 ≡ suc a % 2
    digit = omega arith

pub bit_and-mask : (k a : ℕ) → bit_and a (2 ^ k - 1) ≡ a % 2 ^ k
bit_and-mask k a = bit_and-bitwise a (2 ^ k - 1) ∙ digits-mask k a a (omega arith)

-- Where `j` steps lead in a ring of `c` places.
pub mod-wrap :
    (r c j : ℕ)
    → 0 < c
    → j ≤ c
    → (((r % c + j < c) × ((r + j) % c ≡ r % c + j))
        ⊎ ((c ≤ r % c + j) × ((r + j) % c + c ≡ r % c + j)))
mod-wrap r c j pos near =
    let small : r % c < c = mod-lt r pos in
    elim (Bool-cases (ltb (r % c + j) c)) [
      | inl inside ↦ inl (ground arith, sym (mod-add-mod r c j) ∙ mod-eq_of_lt (ground arith))
      | inr outside ↦
          let past : c ≤ r % c + j = ground arith in
          let back : (r + j) % c ≡ r % c + j - c =
            sym (mod-add-mod r c j)
            ∙ mod-eq-sub-mod past
            ∙ mod-eq_of_lt (omega (arith, small, past)) in
          inr (past, omega (arith, back, past))
    ]

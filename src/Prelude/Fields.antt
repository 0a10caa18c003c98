-- ===== src/Prelude/Fields.antt =====
-- Records of words in memory, each least significant byte first: the bytes determine the words.
use Prim.Native.Nat.{ℕ, ◌^◌, ◌<◌}
use mathlib.Core.Path.{◌≡◌, refl, ap, ap₂, sym, ◌∙◌}
use mathlib.Core.Logic.{◌≢◌, ◌⊎◌, inl, inr}
use mathlib.Core.List.{List, [], ◌∷◌, ◌++◌, map}
use native.Mathlib.Omega.{arith}
use flowlab.Prelude.Lists.{length, All}
use flowlab.Prelude.Tests.{◌==◌, Bool-cases}
use flowlab.Prelude.Bytes.{
  to_le_bytes, from_le_bytes, length-to_le_bytes, from_le_bytes-to_le_bytes,
}

-- a width in bytes, and a word
abbrev pub Field : Type 0
Field = ℕ × ℕ

unfoldable pub le_fields : List Field → List ℕ
le_fields [] = []
le_fields ((w, x) ∷ fs) = to_le_bytes w x ++ le_fields fs

pub append_cancel :
    (xs ys us bs : List ℕ) → length xs ≡ length ys → xs ++ us ≡ ys ++ bs → (xs ≡ ys) × (us ≡ bs)
append_cancel [] [] us bs l e = (refl, e)
append_cancel [] (y ∷ ys) us bs l e = absurd (omega (arith, l))
append_cancel (x ∷ xs) [] us bs l e = absurd (omega (arith, l))
append_cancel (x ∷ xs) (y ∷ ys) us bs l e =
    let heads : x ≡ y = cc in
    let rest = append_cancel xs ys us bs (omega (arith, l)) cc in
    (ap₂ (λ z zs. z ∷ zs) heads rest.0, rest.1)

abbrev pub Fit : List Field → Type 0
Fit fs = All (λ (f : Field). f.1 < 256 ^ f.0) fs

pub le_fields-injective :
    (fs gs : List Field)
    → map (λ (f : Field). f.0) fs ≡ map (λ (f : Field). f.0) gs
    → Fit fs
    → Fit gs
    → le_fields fs ≡ le_fields gs
    → fs ≡ gs
unfolding le_fields
le_fields-injective [] [] w a b e = refl
le_fields-injective [] (g ∷ gs) w a b e = absurd cc
le_fields-injective (f ∷ fs) [] w a b e = absurd cc
le_fields-injective ((u, x) ∷ fs) ((v, y) ∷ gs) w a b e =
    let widths : u ≡ v = cc in
    let tails : map (λ (f : Field). f.0) fs ≡ map (λ (f : Field). f.0) gs = cc in
    let parts =
      append_cancel (to_le_bytes u x) (to_le_bytes v y) (le_fields fs) (le_fields gs)
        (length-to_le_bytes u x ∙ widths ∙ sym (length-to_le_bytes v y)) e in
    let words : x ≡ y =
      sym (from_le_bytes-to_le_bytes u x a.0)
      ∙ ap from_le_bytes parts.0
      ∙ from_le_bytes-to_le_bytes v y b.0 in
    ap₂ (λ h t. h ∷ t) (ap₂ (λ i j. (i, j)) widths words)
      (le_fields-injective fs gs tails a.1 b.1 parts.1)

pub bytes-cases : (xs ys : List ℕ) → (xs ≡ ys) ⊎ (xs ≢ ys)
bytes-cases [] [] = inl refl
bytes-cases [] (y ∷ ys) = inr (λ e. cc)
bytes-cases (x ∷ xs) [] = inr (λ e. cc)
bytes-cases (x ∷ xs) (y ∷ ys) = elim (Bool-cases (x == y)) [
  | inl same ↦ elim (bytes-cases xs ys) [
    | inl e ↦ inl (ap₂ (λ h t. h ∷ t) (ground arith) e)
    | inr n ↦ inr (λ e. n cc)
  ]
  | inr differ ↦ inr (λ e. let heads : x ≡ y = cc in absurd (ground arith))
]

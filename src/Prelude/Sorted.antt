-- ===== src/Prelude/Sorted.antt =====
-- `sort_by_key`, the stable sort of a slice by a number of each element.
use mathlib.Core.List.{Perm}
use mathlib.Core.List.Perm
use flowlab.Prelude.Lists.{All}
use flowlab.Prelude.Tests.{leb, if◌then◌else◌, Bool-cases, leb→le}
use Prim.Native.Nat.{ℕ, ◌≤◌}
use mathlib.Core.Logic.{inl, inr}
use mathlib.Core.List.{List, [], ◌∷◌}
use native.Mathlib.Omega.{arith}

module _ {ℓ} {A : Type ℓ} (key : A → ℕ) where
  -- before the first element that is not smaller, so that equal ones stay in order
  unfoldable pub insert_by_key : A → List A → List A
  insert_by_key x [] = x ∷ []
  insert_by_key x (y ∷ ys) =
      let rest = insert_by_key x ys in if leb (key x) (key y) then x ∷ y ∷ ys else y ∷ rest

  unfoldable pub sort_by_key : List A → List A
  sort_by_key [] = []
  sort_by_key (x ∷ xs) = insert_by_key x (sort_by_key xs)

  -- The keys ascend.
  abbrev pub Ascends : List A → Type 0
  Ascends [] = Unit
  Ascends (x ∷ xs) = All (λ (y : A). key x ≤ key y) xs × Ascends xs

  insert_by_key-perm : (x : A) (xs : List A) → Perm (insert_by_key x xs) (x ∷ xs)
  unfolding insert_by_key
  insert_by_key-perm x [] = Perm.rfl
  insert_by_key-perm x (y ∷ ys) = elim (Bool-cases (leb (key x) (key y))) [
    | inl below ↦ rw below Perm.rfl
    | inr above ↦ rw above (Perm.trans (Perm.cons y (insert_by_key-perm x ys)) (Perm.swap x y ys))
  ]

  pub sort_by_key-perm : (xs : List A) → Perm (sort_by_key xs) xs
  unfolding sort_by_key
  sort_by_key-perm [] = Perm.rfl
  sort_by_key-perm (x ∷ xs) =
      Perm.trans (insert_by_key-perm x (sort_by_key xs)) (Perm.cons x (sort_by_key-perm xs))

  All-insert_by_key {κ} :
      (P : A → Type κ) (x : A) (xs : List A) → P x → All P xs → All P (insert_by_key x xs)
  unfolding insert_by_key
  All-insert_by_key P x [] p a = (p, tt)
  All-insert_by_key P x (y ∷ ys) p a = elim (Bool-cases (leb (key x) (key y))) [
    | inl below ↦ rw below (p, a)
    | inr above ↦ rw above (a.0, All-insert_by_key P x ys p a.1)
  ]

  All-le :
      (m n : ℕ) (xs : List A)
      → m ≤ n
      → All (λ (y : A). n ≤ key y) xs
      → All (λ (y : A). m ≤ key y) xs
  All-le m n [] h a = tt
  All-le m n (x ∷ xs) h a = (omega (arith, h, a.0), All-le m n xs h a.1)

  insert_by_key-Ascends : (x : A) (xs : List A) → Ascends xs → Ascends (insert_by_key x xs)
  unfolding insert_by_key
  insert_by_key-Ascends x [] s = (tt, tt)
  insert_by_key-Ascends x (y ∷ ys) s = elim (Bool-cases (leb (key x) (key y))) [
    | inl below ↦
        let h = leb→le (key x) (key y) below in rw below ((h, All-le (key x) (key y) ys h s.0), s)
    | inr above ↦ rw above (
      All-insert_by_key (λ (z : A). key y ≤ key z) x ys (ground (arith, above)) s.0,
      insert_by_key-Ascends x ys s.1,
    )
  ]

  pub sort_by_key-Ascends : (xs : List A) → Ascends (sort_by_key xs)
  unfolding sort_by_key
  sort_by_key-Ascends [] = tt
  sort_by_key-Ascends (x ∷ xs) = insert_by_key-Ascends x (sort_by_key xs) (sort_by_key-Ascends xs)

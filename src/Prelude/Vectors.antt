-- ===== src/Prelude/Vectors.antt =====
-- `Vec::push` and `Vec::pop` at the end of a list, and what holds of every element.
use Prim.Native.Nat.{ℕ, zero, suc, ◌<◌}
use mathlib.Core.Path.{◌≡◌, refl, ap, ◌∙◌}
use mathlib.Core.Logic.{◌≢◌}
use mathlib.Core.Option.{Option, none, some}
use mathlib.Core.List.{List, [], ◌∷◌, ◌++◌, reverse, reverse-cons}
use native.Mathlib.Omega.{arith}
use flowlab.Prelude.Lists.{length, get_elem?, All, Distinct}

module _ {ℓ} {A : Type ℓ} where
  abbrev pub push : List A → A → List A
  push xs x = xs ++ x ∷ []

  abbrev pub pop_after : A → Option (List A × A) → Option (List A × A)
  pop_after x none = some ([], x)
  pop_after x (some (r, y)) = some (x ∷ r, y)

  unfoldable pub pop : List A → Option (List A × A)
  pop [] = none
  pop (x ∷ xs) = pop_after x (pop xs)

  nil_of_pop : (xs : List A) → pop xs ≡ none → xs ≡ []
  unfolding pop
  nil_of_pop [] e = refl
  nil_of_pop (x ∷ xs) e = ground arith

  pop_after-eq-push :
      (x : A) (xs r : List A) (y : A) (o : Option (List A × A))
      → pop xs ≡ o
      → ((s : List A) (z : A) → o ≡ some (s, z) → xs ≡ push s z)
      → pop_after x o ≡ some (r, y)
      → x ∷ xs ≡ push r y
  pop_after-eq-push x xs r y none e ih h = ground (arith, nil_of_pop xs e)
  pop_after-eq-push x xs r y (some (s, z)) e ih h = ground (arith, ih s z refl)

  pub pop-eq-push : (xs r : List A) (y : A) → pop xs ≡ some (r, y) → xs ≡ push r y
  unfolding pop
  pop-eq-push [] r y e = cc
  pop-eq-push (x ∷ xs) r y e =
      pop_after-eq-push x xs r y (pop xs) refl (λ s z. pop-eq-push xs s z) e

  pub length-push : (xs : List A) (x : A) → length (push xs x) ≡ suc (length xs)
  length-push [] x = refl
  length-push (y ∷ xs) x = ap suc (length-push xs x)

  pub get_elem?-push :
      (xs : List A) (i : ℕ) (x : A) → i < length xs → get_elem? (push xs x) i ≡ get_elem? xs i
  get_elem?-push [] i x h = absurd (omega arith)
  get_elem?-push (y ∷ xs) zero x h = refl
  get_elem?-push (y ∷ xs) (suc i) x h = get_elem?-push xs i x (omega arith)

  pub get_elem?-push_last : (xs : List A) (x : A) → get_elem? (push xs x) (length xs) ≡ some x
  get_elem?-push_last [] x = refl
  get_elem?-push_last (y ∷ xs) x = get_elem?-push_last xs x

  pub All-push {κ} : (P : A → Type κ) (xs : List A) (x : A) → All P xs → P x → All P (push xs x)
  All-push P [] x a h = (h, tt)
  All-push P (y ∷ xs) x a h = (a.0, All-push P xs x a.1 h)

  pub All-of_push {κ} : (P : A → Type κ) (xs : List A) (x : A) → All P (push xs x) → All P xs × P x
  All-of_push P [] x a = (tt, a.0)
  All-of_push P (y ∷ xs) x a = let (b, h) = All-of_push P xs x a.1 in ((a.0, b), h)

  pub All-map {κ κ'} :
      (P : A → Type κ) (Q : A → Type κ') (xs : List A) → ((x : A) → P x → Q x) → All P xs → All Q xs
  All-map P Q [] f a = tt
  All-map P Q (x ∷ xs) f a = (f x a.0, All-map P Q xs f a.1)

pub All-reverse {ℓ κ} : {A : Type ℓ} (P : A → Type κ) (xs : List A) → All P xs → All P (reverse xs)
All-reverse P [] a = tt
All-reverse P (x ∷ xs) a = rw reverse-cons (All-push P (reverse xs) x (All-reverse P xs a.1) a.0)

pub length-reverse {ℓ} : {A : Type ℓ} (xs : List A) → length (reverse xs) ≡ length xs
length-reverse [] = refl
length-reverse (x ∷ xs) = rw reverse-cons (length-push (reverse xs) x ∙ ap suc (length-reverse xs))

pub Distinct-push : (xs : List ℕ) (x : ℕ) → Distinct xs → All (λ y. x ≢ y) xs → Distinct (push xs x)
Distinct-push [] x d a = (tt, tt)
Distinct-push (y ∷ xs) x d a =
    (All-push (λ z. y ≢ z) xs x d.0 (ground arith), Distinct-push xs x d.1 a.1)

pub Distinct-of_push :
    (xs : List ℕ) (x : ℕ) → Distinct (push xs x) → Distinct xs × All (λ y. x ≢ y) xs
Distinct-of_push [] x d = (tt, tt)
Distinct-of_push (y ∷ xs) x d =
    let (e, a) = Distinct-of_push xs x d.1 in
    let (b, h) = All-of_push (λ z. y ≢ z) xs x d.0 in ((b, e), (ground arith, a))

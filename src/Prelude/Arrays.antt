-- ===== src/Prelude/Arrays.antt =====
-- Fixed arrays: moving a block of elements inside one, and the slices of its first elements.
use Prim.Native.Nat.{ℕ, zero, suc, ◌+◌, ◌≤◌, ◌<◌}
use mathlib.Core.Path.{◌≡◌, refl, ap}
use mathlib.Core.List.{List, [], ◌∷◌, ◌++◌}
use mathlib.Core.Option.{none, some}
use native.Mathlib.Omega.{arith}
use flowlab.Prelude.Lists.{
  length, get_elem?, get_or, set, take, drop, insert_at, remove_at, length-append, length-take,
  length-drop,
}

pub add_suc_left : (a b : ℕ) → suc a + b ≡ suc (a + b)
add_suc_left a b = omega arith

module _ {ℓ} {A : Type ℓ} where
  -- `core::ptr::copy` (memmove) of `n` elements inside one array
  abbrev pub copy_within : List A → ℕ → ℕ → ℕ → List A
  copy_within xs src dst n = take dst xs ++ (take n (drop src xs) ++ drop (dst + n) xs)

  pub take-set_beyond : (c i : ℕ) (xs : List A) (v : A) → c ≤ i → take c (set xs i v) ≡ take c xs
  take-set_beyond zero i xs v h = refl
  take-set_beyond (suc c) i [] v h = refl
  take-set_beyond (suc c) zero (x ∷ xs) v h = absurd (omega arith)
  take-set_beyond (suc c) (suc i) (x ∷ xs) v h =
      ap (λ t. x ∷ t) (take-set_beyond c i xs v (omega arith))

  pub take-set : (c i : ℕ) (xs : List A) (v : A) → take c (set xs i v) ≡ set (take c xs) i v
  take-set zero i xs v = refl
  take-set (suc c) i [] v = refl
  take-set (suc c) zero (x ∷ xs) v = refl
  take-set (suc c) (suc i) (x ∷ xs) v = ap (λ t. x ∷ t) (take-set c i xs v)

  pub get_elem?-take : (c i : ℕ) (xs : List A) → i < c → get_elem? (take c xs) i ≡ get_elem? xs i
  get_elem?-take zero i xs h = absurd (omega arith)
  get_elem?-take (suc c) i [] h = refl
  get_elem?-take (suc c) zero (x ∷ xs) h = refl
  get_elem?-take (suc c) (suc i) (x ∷ xs) h = get_elem?-take c i xs (omega arith)

  pub get_elem?_beyond : (i : ℕ) (xs : List A) → length xs ≤ i → get_elem? xs i ≡ none
  get_elem?_beyond i [] h = refl
  get_elem?_beyond zero (x ∷ xs) h = absurd (omega arith)
  get_elem?_beyond (suc i) (x ∷ xs) h = get_elem?_beyond i xs (omega arith)

  pub get_elem?-eq-get_or :
      (xs : List A) (i : ℕ) (d : A) → i < length xs → get_elem? xs i ≡ some (get_or xs i d)
  get_elem?-eq-get_or [] i d h = absurd (omega arith)
  get_elem?-eq-get_or (x ∷ xs) zero d h = refl
  get_elem?-eq-get_or (x ∷ xs) (suc i) d h = get_elem?-eq-get_or xs i d (omega arith)

  pub take_append_left : (n : ℕ) (xs ys : List A) → n ≡ length xs → take n (xs ++ ys) ≡ xs
  take_append_left zero [] ys h = refl
  take_append_left zero (x ∷ xs) ys h = absurd (omega arith)
  take_append_left (suc n) [] ys h = absurd (omega arith)
  take_append_left (suc n) (x ∷ xs) ys h = ap (λ t. x ∷ t) (take_append_left n xs ys (omega arith))

  pub length-copy_within :
      (xs : List A) (src dst n : ℕ)
      → src + n ≤ length xs
      → dst + n ≤ length xs
      → length (copy_within xs src dst n) ≡ length xs
  length-copy_within xs src dst n h k = omega (
    arith,
    length-append (take dst xs) (take n (drop src xs) ++ drop (dst + n) xs),
    length-append (take n (drop src xs)) (drop (dst + n) xs),
    length-take dst xs,
    length-take n (drop src xs),
    length-drop src xs,
    length-drop (dst + n) xs,
  )

  -- Moving the `n` elements from `pos` on one place up, and writing at `pos`, inserts there.
  pub shift_up :
      (pos n c : ℕ) (xs : List A) (v : A)
      → c ≡ pos + n
      → c < length xs
      → take (suc c) (set (copy_within xs pos (suc pos) n) pos v) ≡ insert_at pos v (take c xs)
  shift_up pos n c [] v e h = absurd (omega arith)
  shift_up zero n c (x ∷ xs) v e h =
      ap (λ t. v ∷ t)
        (rw
          (take_append_left c (take n (x ∷ xs)) (drop (1 + n) (x ∷ xs))
            (omega (arith, length-take n (x ∷ xs))))
          (ap (λ k. take k (x ∷ xs)) (omega arith)))
  shift_up (suc pos) n zero (x ∷ xs) v e h = absurd (omega arith)
  shift_up (suc pos) n (suc c) (x ∷ xs) v e h =
      rw drop_step (ap (λ t. x ∷ t) (shift_up pos n c xs v (omega arith) (omega arith)))
    where
      drop_step : drop (suc (suc pos) + n) (x ∷ xs) ≡ drop (suc pos + n) xs
      drop_step = ap (λ k. drop k (x ∷ xs)) (add_suc_left (suc pos) n)

  -- Moving the `n` elements above `i` one place down removes the one at `i`.
  pub shift_down :
      (i n c : ℕ) (xs : List A) (w : A)
      → c ≡ i + n
      → c < length xs
      → take c (set (copy_within xs (suc i) i n) c w) ≡ remove_at i (take (suc c) xs)
  shift_down i n c [] w e h = absurd (omega arith)
  shift_down zero n c (x ∷ xs) w e h =
      rw
        (
          take-set_beyond c c (copy_within (x ∷ xs) 1 0 n) w (omega arith),
          take_append_left c (take n xs) (drop (0 + n) (x ∷ xs)) (omega (arith, length-take n xs)),
        )
        (ap (λ k. take k xs) (omega arith))
  shift_down (suc i) n zero (x ∷ xs) w e h = absurd (omega arith)
  shift_down (suc i) n (suc c) (x ∷ xs) w e h =
      rw (ap (λ k. drop k (x ∷ xs)) (add_suc_left i n))
        (ap (λ t. x ∷ t) (shift_down i n c xs w (omega arith) (omega arith)))

  -- Writing just past the first `c` elements appends.
  pub take-set_last :
      (c : ℕ) (xs : List A) (v : A)
      → c < length xs
      → take (suc c) (set xs c v) ≡ insert_at c v (take c xs)
  take-set_last c [] v h = absurd (omega arith)
  take-set_last zero (x ∷ xs) v h = refl
  take-set_last (suc c) (x ∷ xs) v h = ap (λ t. x ∷ t) (take-set_last c xs v (omega arith))

  pub remove_at_last :
      (c : ℕ) (xs : List A) → c < length xs → remove_at c (take (suc c) xs) ≡ take c xs
  remove_at_last c [] h = absurd (omega arith)
  remove_at_last zero (x ∷ xs) h = refl
  remove_at_last (suc c) (x ∷ xs) h = ap (λ t. x ∷ t) (remove_at_last c xs (omega arith))

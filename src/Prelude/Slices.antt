-- ===== src/Prelude/Slices.antt =====
-- Slices `xs[i..j]` as `take` and `drop`.
use Prim.Native.Nat.{ℕ, zero, suc, ◌+◌, ◌-◌, ◌≤◌, ◌<◌}
use mathlib.Core.Path.{◌≡◌, refl, ap, ap₂, sym, ◌∙◌}
use mathlib.Core.List.{List, [], ◌∷◌, ◌++◌}
use native.Mathlib.Omega.{arith}
use flowlab.Prelude.Lists.{length, get_or, take, drop, set, All}
use flowlab.Prelude.Arrays.{add_suc_left}

module _ {ℓ} {A : Type ℓ} where
  pub get_or-drop : (xs : List A) (i j : ℕ) (d : A) → get_or xs (i + j) d ≡ get_or (drop i xs) j d
  get_or-drop xs zero j d = ap (λ k. get_or xs k d) (omega arith)
  get_or-drop [] (suc i) j d = refl
  get_or-drop (x ∷ xs) (suc i) j d =
      ap (λ k. get_or (x ∷ xs) k d) (add_suc_left i j) ∙ get_or-drop xs i j d

  drop_nil : (i : ℕ) → drop {A = A} i [] ≡ []
  drop_nil zero = refl
  drop_nil (suc i) = refl

  pub drop-drop : (xs : List A) (i j : ℕ) → drop (i + j) xs ≡ drop j (drop i xs)
  drop-drop xs zero j = ap (λ k. drop k xs) (omega arith)
  drop-drop [] (suc i) j = drop_nil (suc i + j) ∙ sym (drop_nil j)
  drop-drop (x ∷ xs) (suc i) j = ap (λ k. drop k (x ∷ xs)) (add_suc_left i j) ∙ drop-drop xs i j

  pub take-length : (xs ys : List A) → take (length xs) (xs ++ ys) ≡ xs
  take-length [] ys = refl
  take-length (x ∷ xs) ys = ap (λ l. x ∷ l) (take-length xs ys)

  pub take_beyond : (xs ys : List A) (j : ℕ) → take (length xs + j) (xs ++ ys) ≡ xs ++ take j ys
  take_beyond [] ys j = ap (λ k. take k ys) (omega arith)
  take_beyond (x ∷ xs) ys j =
      ap (λ k. take k (x ∷ (xs ++ ys))) (add_suc_left (length xs) j)
      ∙ ap (λ l. x ∷ l) (take_beyond xs ys j)

  pub take_front : (k : ℕ) (xs ys : List A) → k ≤ length xs → take k (xs ++ ys) ≡ take k xs
  take_front zero xs ys h = refl
  take_front (suc k) [] ys h = absurd (omega arith)
  take_front (suc k) (x ∷ xs) ys h = ap (λ l. x ∷ l) (take_front k xs ys (omega arith))

  pub drop_front : (k : ℕ) (xs ys : List A) → k ≤ length xs → drop k (xs ++ ys) ≡ drop k xs ++ ys
  drop_front zero xs ys h = refl
  drop_front (suc k) [] ys h = absurd (omega arith)
  drop_front (suc k) (x ∷ xs) ys h = drop_front k xs ys (omega arith)

  pub drop-length : (xs ys : List A) → drop (length xs) (xs ++ ys) ≡ ys
  drop-length [] ys = refl
  drop-length (x ∷ xs) ys = drop-length xs ys

-- `xs[first..last]`
abbrev pub slice {ℓ} : {A : Type ℓ} → List A → ℕ → ℕ → List A
slice xs first last = take (last - first) (drop first xs)

-- What holds of every element holds of those of a slice.
module _ {ℓ κ} {A : Type ℓ} (P : A → Type κ) where
  pub All-take : (n : ℕ) (xs : List A) → All P xs → All P (take n xs)
  All-take zero xs h = tt
  All-take (suc n) [] h = tt
  All-take (suc n) (x ∷ xs) (h, hs) = (h, All-take n xs hs)

  pub All-drop : (n : ℕ) (xs : List A) → All P xs → All P (drop n xs)
  All-drop zero xs h = h
  All-drop (suc n) [] h = tt
  All-drop (suc n) (x ∷ xs) (h, hs) = All-drop n xs hs

  pub All-get_or : (xs : List A) (i : ℕ) (d : A) → i < length xs → All P xs → P (get_or xs i d)
  All-get_or [] i d inside h = absurd (omega arith)
  All-get_or (x ∷ xs) zero d inside (h, hs) = h
  All-get_or (x ∷ xs) (suc i) d inside (h, hs) = All-get_or xs i d (omega arith) hs

  pub All-set_at : (xs : List A) (i : ℕ) (v : A) → P v → All P xs → All P (set xs i v)
  All-set_at [] i v hv h = tt
  All-set_at (x ∷ xs) zero v hv (h, hs) = (hv, hs)
  All-set_at (x ∷ xs) (suc i) v hv (h, hs) = (h, All-set_at xs i v hv hs)

module _ {ℓ} {A : Type ℓ} where
  -- `Vec::swap_remove`: the last element takes the place of the one removed. Out of range, where
  -- it panics, the value is `d`.
  unfoldable pub swap_remove : List A → ℕ → A → A × List A
  swap_remove xs i d =
      (get_or xs i d, take (length xs - 1) (set xs i (get_or xs (length xs - 1) d)))

-- Elements of slices and of joined lists.
module _ {ℓ} {A : Type ℓ} where
  pub get_or-take :
      (n : ℕ) (xs : List A) (i : ℕ) (d : A) → i < n → get_or (take n xs) i d ≡ get_or xs i d
  get_or-take zero xs i d h = absurd (omega arith)
  get_or-take (suc n) [] i d h = refl
  get_or-take (suc n) (x ∷ xs) zero d h = refl
  get_or-take (suc n) (x ∷ xs) (suc i) d h = get_or-take n xs i d (omega arith)

  pub get_or-append :
      (xs ys : List A) (i : ℕ) (d : A)
      → ((i < length xs → get_or (xs ++ ys) i d ≡ get_or xs i d)
          × (length xs ≤ i → get_or (xs ++ ys) i d ≡ get_or ys (i - length xs) d))
  get_or-append [] ys i d = (λ h. absurd (omega arith), λ h. ap (λ k. get_or ys k d) (omega arith))
  get_or-append (x ∷ xs) ys zero d = (λ h. refl, λ h. absurd (omega arith))
  get_or-append (x ∷ xs) ys (suc i) d =
      let (inside, behind) = get_or-append xs ys i d in
      (λ h. inside (omega arith), λ h. behind (omega arith) ∙ ap (λ k. get_or ys k d) (omega arith))

  pub get_or_ext :
      (d : A) (xs ys : List A)
      → length xs ≡ length ys
      → ((i : ℕ) → i < length xs → get_or xs i d ≡ get_or ys i d)
      → xs ≡ ys
  get_or_ext d [] [] e same = refl
  get_or_ext d [] (y ∷ ys) e same = absurd (omega (arith, e))
  get_or_ext d (x ∷ xs) [] e same = absurd (omega (arith, e))
  get_or_ext d (x ∷ xs) (y ∷ ys) e same =
      ap₂ (λ z l. z ∷ l) (same 0 (omega arith))
        (get_or_ext d xs ys (omega (arith, e)) (λ i h. same (suc i) (omega arith)))

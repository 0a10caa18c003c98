-- ===== src/Ladder/Update.antt =====
-- Insertion, replacement and removal at the place of a price: what each does to every price, and
-- that the side stays sorted.
use flowlab.Prelude.{
  ℕ, zero, suc, Bool, ◌≡◌, refl, none, some, List, [], ◌∷◌, All, ◌==◌, if◌then◌else◌, arith,
  get_elem?, set, insert_at, remove_at,
}
use flowlab.Ladder.{Level, Before, IsSorted, lookup}
use flowlab.Ladder.Position.{position, All-trans, All-of_eq, lookup_of_after}

module _ (d : Bool) (p : ℕ) (v : Level) (same : v.price ≡ p) where
  pub lookup-insert_at :
      (q : ℕ) (xs : List Level)
      → lookup q (insert_at (position d p xs) v xs) ≡ (if p == q then some v else lookup q xs)
  unfolding lookup position
  lookup-insert_at q [] = ground arith
  lookup-insert_at q (x ∷ xs) = ground (arith, lookup-insert_at q xs)

  pub lookup-set :
      (q : ℕ) (xs : List Level) (l : Level)
      → get_elem? xs (position d p xs) ≡ some l
      → l.price ≡ p
      → lookup q (set xs (position d p xs) v) ≡ (if p == q then some v else lookup q xs)
  unfolding lookup position
  lookup-set q [] l e h = cc
  lookup-set q (x ∷ xs) l e h = ground (arith, lookup-set q xs l)

  pub position-set :
      (xs : List Level) (l : Level)
      → get_elem? xs (position d p xs) ≡ some l
      → position d p (set xs (position d p xs) v) ≡ position d p xs
  unfolding position
  position-set [] l e = refl
  position-set (x ∷ xs) l e = ground (arith, position-set xs l)

  All-insert_at :
      (r : ℕ) (xs : List Level)
      → Before d r p
      → All (λ (m : Level). Before d r m.price) xs
      → All (λ (m : Level). Before d r m.price) (insert_at (position d p xs) v xs)
  unfolding position
  All-insert_at r [] h a = ground arith
  All-insert_at r (x ∷ xs) h a = ground (arith, All-insert_at r xs h a.1)

  -- A new level keeps the side sorted, if the price is not there.
  pub insert_at-IsSorted :
      (xs : List Level)
      → IsSorted d xs
      → lookup p xs ≡ none
      → IsSorted d (insert_at (position d p xs) v xs)
  unfolding lookup position
  insert_at-IsSorted [] s h = (tt, tt)
  insert_at-IsSorted (x ∷ xs) s h = ground (
    arith,
    insert_at-IsSorted xs s.1,
    All-insert_at x.price xs,
    s.0,
    s.1,
    All-trans d v.price x.price xs,
  )

  All-set :
      (r : ℕ) (xs : List Level)
      → Before d r p
      → All (λ (m : Level). Before d r m.price) xs
      → All (λ (m : Level). Before d r m.price) (set xs (position d p xs) v)
  unfolding position
  All-set r [] h a = tt
  All-set r (x ∷ xs) h a = ground (arith, All-set r xs h a.1)

  pub set-IsSorted :
      (xs : List Level) (l : Level)
      → get_elem? xs (position d p xs) ≡ some l
      → l.price ≡ p
      → IsSorted d xs
      → IsSorted d (set xs (position d p xs) v)
  unfolding position
  set-IsSorted [] l e h s = tt
  set-IsSorted (x ∷ xs) l e h s =
      ground (
        arith,
        set-IsSorted xs l,
        All-set x.price xs,
        s.0,
        s.1,
        All-of_eq d x.price v.price xs,
        same,
      )

module _ (d : Bool) (p : ℕ) where
  pub lookup-remove_at :
      (q : ℕ) (xs : List Level) (l : Level)
      → get_elem? xs (position d p xs) ≡ some l
      → l.price ≡ p
      → IsSorted d xs
      → lookup q (remove_at (position d p xs) xs) ≡ (if p == q then none else lookup q xs)
  unfolding lookup position
  lookup-remove_at q [] l e h s = cc
  lookup-remove_at q (x ∷ xs) l e h s =
      ground
        (arith, lookup-remove_at q xs l, lookup_of_after d p xs, s.0, s.1, All-of_eq d x.price p xs)

pub All-remove_at :
    (d : Bool) (r i : ℕ) (xs : List Level)
    → All (λ (m : Level). Before d r m.price) xs
    → All (λ (m : Level). Before d r m.price) (remove_at i xs)
All-remove_at d r i [] a = tt
All-remove_at d r zero (x ∷ xs) a = a.1
All-remove_at d r (suc i) (x ∷ xs) a = (a.0, All-remove_at d r i xs a.1)

pub remove_at-IsSorted :
    (d : Bool) (i : ℕ) (xs : List Level) → IsSorted d xs → IsSorted d (remove_at i xs)
remove_at-IsSorted d i [] s = tt
remove_at-IsSorted d zero (x ∷ xs) s = s.1
remove_at-IsSorted d (suc i) (x ∷ xs) s =
    (All-remove_at d x.price i xs s.0, remove_at-IsSorted d i xs s.1)

-- ===== src/Ladder/Position.antt =====
-- The place that `partition_point` finds for a price in a sorted side.
use flowlab.Prelude.{
  ℕ, suc, ◌≤◌, Bool, ◌≡◌, refl, subst, Option, none, some, List, [], ◌∷◌, All, ◌==◌, if◌then◌else◌,
  arith, length, get_elem?,
}
use flowlab.Ladder.{Level, before, Before, IsSorted, lookup}

-- `partition_point` of `core::slice`, on a slice that the test partitions: the number of leading
-- elements that pass.
unfoldable pub partition_point {ℓ} : {A : Type ℓ} → (A → Bool) → List A → ℕ
partition_point test [] = 0
partition_point test (x ∷ xs) = if test x then suc (partition_point test xs) else 0

-- `levels[..cnt].partition_point(|l| l.price > price)`, with `<` on the ask side
unfoldable pub position : Bool → ℕ → List Level → ℕ
unfolding partition_point
position is_bid price = partition_point (λ l. before is_bid l.price price)

pub position-le : (d : Bool) (p : ℕ) (xs : List Level) → position d p xs ≤ length xs
unfolding position
position-le d p [] = omega arith
position-le d p (x ∷ xs) = ground (arith, position-le d p xs)

pub All-trans :
    (d : Bool) (p q : ℕ) (xs : List Level)
    → Before d p q
    → All (λ (m : Level). Before d q m.price) xs
    → All (λ (m : Level). Before d p m.price) xs
All-trans d p q [] h a = tt
All-trans d p q (x ∷ xs) h a = (ground arith, All-trans d p q xs h a.1)

pub All-of_eq :
    (d : Bool) (p q : ℕ) (xs : List Level)
    → p ≡ q
    → All (λ (m : Level). Before d p m.price) xs
    → All (λ (m : Level). Before d q m.price) xs
All-of_eq d p q xs e a = subst (λ k. All (λ (m : Level). Before d k m.price) xs) e a

pub lookup_of_after :
    (d : Bool) (p : ℕ) (xs : List Level)
    → All (λ (m : Level). Before d p m.price) xs
    → lookup p xs ≡ none
unfolding lookup
lookup_of_after d p [] a = refl
lookup_of_after d p (x ∷ xs) a = ground (arith, lookup_of_after d p xs a.1)

-- What the code looks at decides whether the price is there.
abbrev pub at_position : ℕ → Option Level → Option Level
at_position p none = none
at_position p (some l) = if l.price == p then some l else none

pub lookup-position :
    (d : Bool) (p : ℕ) (xs : List Level)
    → IsSorted d xs
    → lookup p xs ≡ at_position p (get_elem? xs (position d p xs))
unfolding lookup position
lookup-position d p [] s = refl
lookup-position d p (x ∷ xs) s =
    ground
      (arith, lookup-position d p xs s.1, lookup_of_after d p xs, All-trans d p x.price xs, s.0)

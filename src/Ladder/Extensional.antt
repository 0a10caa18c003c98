-- ===== src/Ladder/Extensional.antt =====
-- A sorted side is determined by the levels at each price; reversal turns the direction round.
use flowlab.Prelude.{
  ℕ, Bool, true, false, ◌≡◌, refl, ap₂, ◌∙◌, none, some, List, [], ◌∷◌, ◌++◌, All, ◌==◌, ==_self,
  if◌then◌else◌, arith, reverse, reverse-cons, All-reverse,
}
use flowlab.Ladder.{Level, Before, IsSorted, lookup}
use flowlab.Ladder.Position.{All-trans, lookup_of_after}

lookup_head : (x : Level) (xs : List Level) → lookup x.price (x ∷ xs) ≡ some x
unfolding lookup
lookup_head x xs = ground (arith, ==_self x.price)

-- Equal levels at every price make equal tails under equal heads.
lookup_tail :
    (d : Bool) (x : Level) (xs ys : List Level)
    → All (λ (m : Level). Before d x.price m.price) xs
    → All (λ (m : Level). Before d x.price m.price) ys
    → ((p : ℕ) → lookup p (x ∷ xs) ≡ lookup p (x ∷ ys))
    → (p : ℕ) → lookup p xs ≡ lookup p ys
unfolding lookup
lookup_tail d x xs ys a b h p =
    ground (arith, h p, lookup_of_after d x.price xs a, lookup_of_after d x.price ys b)

heads_agree :
    (d : Bool) (x y : Level) (xs ys : List Level)
    → IsSorted d (x ∷ xs)
    → IsSorted d (y ∷ ys)
    → ((p : ℕ) → lookup p (x ∷ xs) ≡ lookup p (y ∷ ys))
    → x ≡ y
unfolding lookup
heads_agree d x y xs ys s t h = ground (
  arith,
  h x.price,
  h y.price,
  lookup_of_after d x.price ys,
  lookup_of_after d y.price xs,
  All-trans d x.price y.price ys,
  All-trans d y.price x.price xs,
  s.0,
  t.0,
)

pub sorted_ext :
    (d : Bool) (xs ys : List Level)
    → IsSorted d xs
    → IsSorted d ys
    → ((p : ℕ) → lookup p xs ≡ lookup p ys)
    → xs ≡ ys
sorted_ext d [] [] s t h = refl
sorted_ext d [] (y ∷ ys) s t h = unfold lookup in cc (h y.price, lookup_head y ys)
sorted_ext d (x ∷ xs) [] s t h = unfold lookup in cc (h x.price, lookup_head x xs)
sorted_ext d (x ∷ xs) (y ∷ ys) s t h =
    let e : x ≡ y = heads_agree d x y xs ys s t h in
    ap₂ ◌∷◌ e (sorted_ext d xs ys s.1 t.1 (lookup_tail d x xs ys s.0 (rw e t.0) (λ p. rw (h p, e))))

lookup-append_last :
    (p : ℕ) (xs : List Level) (x : Level)
    → lookup x.price xs ≡ none
    → lookup p (xs ++ x ∷ []) ≡ (if x.price == p then some x else lookup p xs)
unfolding lookup
lookup-append_last p [] x h = refl
lookup-append_last p (y ∷ ys) x h = ground (arith, lookup-append_last p ys x)

-- In the reversed direction the tests are the same with the prices exchanged.
All-append_last :
    (d : Bool) (r : ℕ) (xs : List Level) (x : Level)
    → All (λ (m : Level). Before d r m.price) xs
    → Before d r x.price
    → All (λ (m : Level). Before d r m.price) (xs ++ x ∷ [])
All-append_last d r [] x a h = (h, tt)
All-append_last d r (y ∷ ys) x a h = (a.0, All-append_last d r ys x a.1 h)

IsSorted-append_last :
    (d : Bool) (xs : List Level) (x : Level)
    → IsSorted d xs
    → All (λ (m : Level). Before d m.price x.price) xs
    → IsSorted d (xs ++ x ∷ [])
IsSorted-append_last d [] x s a = (tt, tt)
IsSorted-append_last d (y ∷ ys) x s a =
    (All-append_last d y.price ys x s.0 a.0, IsSorted-append_last d ys x s.1 a.1)

-- A price after `r` on the ask side comes before it on the bid side.
All-turn :
    (r : ℕ) (xs : List Level)
    → All (λ (m : Level). Before false r m.price) xs
    → All (λ (m : Level). Before true m.price r) xs
All-turn r [] a = tt
All-turn r (x ∷ xs) a = (a.0, All-turn r xs a.1)

pub reverse-IsSorted : (xs : List Level) → IsSorted false xs → IsSorted true (reverse xs)
reverse-IsSorted [] s = tt
reverse-IsSorted (x ∷ xs) s = rw reverse-cons (
    IsSorted-append_last true (reverse xs) x (reverse-IsSorted xs s.1)
      (All-reverse (λ m. Before true m.price x.price) xs (All-turn x.price xs s.0)))

pub lookup-reverse :
    (p : ℕ) (xs : List Level) → IsSorted false xs → lookup p (reverse xs) ≡ lookup p xs
lookup-reverse p [] s = refl
lookup-reverse p (x ∷ xs) s =
    let absent : lookup x.price (reverse xs) ≡ none =
      lookup-reverse x.price xs s.1 ∙ lookup_of_after false x.price xs s.0 in
    rw (reverse-cons, lookup-append_last p (reverse xs) x absent, lookup-reverse p xs s.1)
      (unfold lookup in refl)

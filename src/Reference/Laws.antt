-- ===== src/Reference/Laws.antt =====
-- What the reference book's maps of levels hold: the level at each price after each update, and
-- their view as sorted sides.
use flowlab.Prelude.{
  ℕ, ◌-◌, ◌<◌, Bool, true, false, ◌≡◌, refl, Option, none, some, [], ◌∷◌, All, ◌==◌, if◌then◌else◌,
  arith, length, add_u64, add_u32, u64_mod, add_u64_of_lt, add_u32_of_lt, Bool-cases, inl, inr, ap,
  suc,
}
use flowlab.Map
use flowlab.Map.{Map, IsOrdered}
use flowlab.Map.Laws.{
  get-insert, get-remove, insert-IsOrdered, remove-IsOrdered, All-insert, All-remove, Above,
}
use flowlab.Ladder.{Level, Before, IsSorted, lookup}
use flowlab.Hot.Grid.Deduct.{cancelled}
use flowlab.Hot.Grid.Add.{joined}
use flowlab.Reference.{join_level, deduct_level, deduct_found, entry_level}

-- Each level stands under its own price, and the prices ascend.
pub record IsValid (m : Map Level) : Type 0 where
  pub ordered : IsOrdered m
  pub priced : All (λ (e : ℕ × Level). e.1.price ≡ e.0) m

pub insert-IsValid :
    (p : ℕ) (l : Level) (m : Map Level) → l.price ≡ p → IsValid m → IsValid (Map.insert p l m)
insert-IsValid p l m h v = record {
  ordered = insert-IsOrdered p l m v.ordered;
  priced = All-insert (λ (e : ℕ × Level). e.1.price ≡ e.0) p l m h v.priced;
}

pub remove-IsValid : (p : ℕ) (m : Map Level) → IsValid m → IsValid (Map.remove p m)
remove-IsValid p m v = record {
  ordered = remove-IsOrdered p m v.ordered;
  priced = All-remove (λ (e : ℕ × Level). e.1.price ≡ e.0) p m v.priced;
}

price_of_get :
    (p : ℕ) (l : Level) (m : Map Level)
    → All (λ (e : ℕ × Level). e.1.price ≡ e.0) m
    → Map.get p m ≡ some l
    → l.price ≡ p
unfolding Map.get
price_of_get p l [] a h = cc
price_of_get p l ((j, k) ∷ m) a h = ground (arith, price_of_get p l m a.1)

pub lookup-values :
    (p : ℕ) (m : Map Level)
    → All (λ (e : ℕ × Level). e.1.price ≡ e.0) m
    → lookup p (Map.values m) ≡ Map.get p m
unfolding Map.get Map.values lookup
lookup-values p [] a = refl
lookup-values p ((j, l) ∷ m) a = ground (arith, lookup-values p m a.1)

pub length-values : (m : Map Level) → length (Map.values m) ≡ length m
unfolding Map.values
length-values [] = refl
length-values ((j, l) ∷ m) = ap suc (length-values m)

Above-values :
    (n : ℕ) (m : Map Level)
    → Above n m
    → All (λ (e : ℕ × Level). e.1.price ≡ e.0) m
    → All (λ (l : Level). Before false n l.price) (Map.values m)
unfolding Map.values
Above-values n [] a h = tt
Above-values n ((j, l) ∷ m) a h = (ground arith, Above-values n m a.1 h.1)

values-IsSorted_raw :
    (m : Map Level)
    → IsOrdered m
    → All (λ (e : ℕ × Level). e.1.price ≡ e.0) m
    → IsSorted false (Map.values m)
unfolding Map.values
values-IsSorted_raw [] o h = tt
values-IsSorted_raw ((j, l) ∷ m) o h =
    (rw (h.0) (Above-values j m o.0 h.1), values-IsSorted_raw m o.1 h.1)

pub values-IsSorted : (m : Map Level) → IsValid m → IsSorted false (Map.values m)
values-IsSorted m v = values-IsSorted_raw m v.ordered v.priced

module _ (m : Map Level) (v : IsValid m) (p qty : ℕ) where
  pub join_level-IsValid : IsValid (join_level m p qty)
  unfolding join_level
  join_level-IsValid = insert-IsValid p _ m (entry_price (Map.get p m) refl) v
    where
      entry_price : (o : Option Level) → Map.get p m ≡ o → (entry_level p o).price ≡ p
      entry_price none e = refl
      entry_price (some l) e = price_of_get p l m v.priced e

  pub get-join_level :
      (q : ℕ)
      → qty < u64_mod
      → Map.get q (join_level m p qty)
        ≡ (if p == q then some (joined p qty (Map.get p m)) else Map.get q m)
  unfolding join_level
  get-join_level q h = rw (get-insert p q _ m, level_joined (Map.get p m) h)
    where
      level_joined :
          (o : Option Level)
          → qty < u64_mod
          → ◌≡◌ {A = Level}
              (record (entry_level p o) {
                total_qty = add_u64 (entry_level p o).total_qty qty;
                order_count = add_u32 (entry_level p o).order_count 1;
              })
              (joined p qty o)
      level_joined none h =
          ground (arith, add_u64_of_lt 0 qty (omega arith), add_u32_of_lt 0 1 (omega arith))
      level_joined (some l) h = refl

  found-IsValid :
      (release : Bool) (o : Option Level)
      → Map.get p m ≡ o
      → IsValid (deduct_found m p qty release o)
  unfolding deduct_found
  found-IsValid release none e = v
  found-IsValid false (some l) e = insert-IsValid p _ m (price_of_get p l m v.priced e) v
  found-IsValid true (some l) e = elim (Bool-cases ((l.order_count - 1) == 0)) [
    | inl h ↦ rw h (remove-IsValid p m v)
    | inr h ↦ rw h (insert-IsValid p _ m (price_of_get p l m v.priced e) v)
  ]

  pub deduct_level-IsValid : (release : Bool) → IsValid (deduct_level m p qty release)
  unfolding deduct_level
  deduct_level-IsValid release = found-IsValid release (Map.get p m) refl

  get-found :
      (release : Bool) (q : ℕ) (o : Option Level)
      → Map.get p m ≡ o
      → Map.get q (deduct_found m p qty release o)
        ≡ (if p == q then cancelled qty release o else Map.get q m)
  unfolding deduct_found
  get-found release q none e = ground arith
  get-found false q (some l) e = get-insert p q _ m
  get-found true q (some l) e = elim (Bool-cases ((l.order_count - 1) == 0)) [
    | inl h ↦ rw h (get-remove p q m)
    | inr h ↦ rw h (get-insert p q _ m)
  ]

  pub get-deduct_level :
      (release : Bool) (q : ℕ)
      → Map.get q (deduct_level m p qty release)
        ≡ (if p == q then cancelled qty release (Map.get p m) else Map.get q m)
  unfolding deduct_level
  get-deduct_level release q = get-found release q (Map.get p m) refl

-- ===== src/Hot/Grid/Deduct.antt =====
-- The ways an order leaves a level: `cancel_order`, `trade`, `trade_full_fill` and `trade_anon`.
use flowlab.Prelude.{
  ℕ, ◌-◌, Bool, true, false, ◌≡◌, refl, ap, sym, subst, Option, none, some, ◌==◌, if◌then◌else◌,
  arith, Option-cases, inl, inr,
}
use flowlab.Ladder.{Level, lookup}
use flowlab.Hot.Grid.{
  Grid, level_at, live, find_level, if_found, remove_level, deduct_qty, release_order, cancel_level,
  partial_fill_level, full_fill_level, anon_fill_level,
}
use flowlab.Hot.Grid.Laws.{
  IsValid, At, write_at, find_level-found, find_level-missing, lookup-write_at, write_at-IsValid,
  At-write_at, lookup-remove_level, remove_level-IsValid,
}

-- What becomes of a level: less quantity, and one order less.
abbrev pub less_qty : ℕ → Level → Level
less_qty qty l = record l { total_qty = l.total_qty - qty }

abbrev pub less_order : Level → Option Level
less_order l =
    if (l.order_count - 1) == 0 then none else some (record l { order_count = l.order_count - 1 })

abbrev pub cancelled : ℕ → Bool → Option Level → Option Level
cancelled qty release none = none
cancelled qty release (some l) =
    if release then less_order (less_qty qty l) else some (less_qty qty l)

abbrev pub anon_filled : ℕ → Option Level → Option Level
anon_filled qty none = none
anon_filled qty (some l) =
    if (l.total_qty - qty) == 0 then less_order (less_qty qty l) else some (less_qty qty l)

abbrev pub is_some {ℓ} : {A : Type ℓ} → Option A → Bool
is_some none = false
is_some (some a) = true

-- The result of an update at one price: the flag, the level there, and every other level as it was.
pub record Updates (max_levels : ℕ) (d : Bool) (p : ℕ) (g : Grid) (flag : Bool)
    (level : Option Level) (r : Bool × Grid) : Type 0 where
  pub flagged : r.0 ≡ flag
  pub valid : IsValid max_levels d r.1
  pub levels : (q : ℕ) → lookup q (live r.1) ≡ (if p == q then level else lookup q (live g))

-- both writes: the quantity, then the order
abbrev released : Grid → ℕ → ℕ → Grid
released g qty i = release_order (deduct_qty g i qty) i

if_IsValid :
    {max_levels : ℕ} {d : Bool} (b : Bool) {g h : Grid}
    → IsValid max_levels d g
    → IsValid max_levels d h
    → IsValid max_levels d (if b then g else h)
if_IsValid true v w = v
if_IsValid false v w = w

module _ {max_levels : ℕ} {d : Bool} {g : Grid} (v : IsValid max_levels d g) {p i : ℕ} {l : Level}
    (a : At d p g i l) where
  fewer : Level
  fewer = record l { order_count = l.order_count - 1 }

  release_order-split : release_order g i ≡ (
      if (l.order_count - 1) == 0 then remove_level (write_at g i fewer) i else write_at g i fewer)
  unfolding release_order fewer
  release_order-split =
      ap
        (λ (m : Level).
          let g' = write_at g i (record m { order_count = m.order_count - 1 }) in
          if (m.order_count - 1) == 0 then remove_level g' i else g')
        a.holds

  release_order-levels :
      (q : ℕ)
      → lookup q (live (release_order g i)) ≡ (if p == q then less_order l else lookup q (live g))
  unfolding fewer
  release_order-levels q = ground (
    arith,
    release_order-split,
    lookup-write_at v a fewer a.priced q,
    lookup-remove_level (write_at-IsValid v a fewer a.priced) (At-write_at v a fewer a.priced) q,
  )

  release_order-IsValid : IsValid max_levels d (release_order g i)
  unfolding fewer
  release_order-IsValid = subst (IsValid max_levels d) (sym release_order-split) (
      if_IsValid ((l.order_count - 1) == 0)
        (remove_level-IsValid (write_at-IsValid v a fewer a.priced)
          (At-write_at v a fewer a.priced))
        (write_at-IsValid v a fewer a.priced))

module _ {max_levels : ℕ} {d : Bool} {g : Grid} (v : IsValid max_levels d g) (p qty : ℕ) where
  -- at the level that the code holds
  module _ (i : ℕ) (a : At d p g i (level_at g.levels i)) where
    module _ (q : ℕ) where
      lookup-deduct_qty :
          lookup q (live (deduct_qty g i qty))
          ≡ (if p == q then some (less_qty qty (level_at g.levels i)) else lookup q (live g))
      unfolding deduct_qty
      lookup-deduct_qty = lookup-write_at v a (less_qty qty (level_at g.levels i)) a.priced q

    deduct_qty-IsValid : IsValid max_levels d (deduct_qty g i qty)
    unfolding deduct_qty
    deduct_qty-IsValid = write_at-IsValid v a (less_qty qty (level_at g.levels i)) a.priced

    At-deduct_qty : At d p (deduct_qty g i qty) i (less_qty qty (level_at g.levels i))
    unfolding deduct_qty
    At-deduct_qty = At-write_at v a (less_qty qty (level_at g.levels i)) a.priced

    released-IsValid : IsValid max_levels d (released g qty i)
    released-IsValid = release_order-IsValid deduct_qty-IsValid At-deduct_qty

    lookup-released :
        (q : ℕ)
        → lookup q (live (released g qty i))
          ≡ (if p == q then less_order (less_qty qty (level_at g.levels i)) else lookup q (live g))
    lookup-released q =
        ground (arith, release_order-levels deduct_qty-IsValid At-deduct_qty q, lookup-deduct_qty q)

  -- An update of the level at `p`, found by `find_level`.
  if_found-Updates :
      (update : ℕ → Grid) (f : Option Level → Option Level)
      → f none ≡ none
      → ((i : ℕ) → At d p g i (level_at g.levels i) → IsValid max_levels d (update i))
      → ((i : ℕ)
          → At d p g i (level_at g.levels i)
          → (q : ℕ)
          → lookup q (live (update i))
            ≡ (if p == q then f (some (level_at g.levels i)) else lookup q (live g)))
      → Updates max_levels d p g
          (is_some (lookup p (live g)))
          (f (lookup p (live g)))
          (if_found g (find_level g.levels g.count p d) update)
  if_found-Updates update f fn keeps moves = elim (Option-cases (find_level g.levels g.count p d)) [
    | inl missing ↦ rw missing (record {
      flagged = sym (ap is_some (find_level-missing v p missing));
      valid = v;
      levels = λ q.
          rw (find_level-missing v p missing, fn) (unchanged q (find_level-missing v p missing));
    })
    | inr (i, found) ↦
        let (a, e) = find_level-found v p i found in
        rw found (record {
          flagged = sym (ap is_some e);
          valid = keeps i a;
          levels = λ q. rw e (moves i a q);
        })
  ]
    where
      unchanged :
          (q : ℕ)
          → lookup p (live g) ≡ none
          → lookup q (live g) ≡ (if p == q then none else lookup q (live g))
      unchanged q e = ground arith

  -- On a valid side `cancel_order` finds the level of the price if there is one and takes the
  -- quantity off it; a whole cancel also takes one order off, and the level leaves the array with its
  -- last order. Every other price keeps its level, and the side stays valid.
  pub cancel_level-Updates :
      (release : Bool)
      → Updates max_levels d p g
          (is_some (lookup p (live g)))
          (cancelled qty release (lookup p (live g)))
          (cancel_level g d p qty release)
  unfolding cancel_level
  cancel_level-Updates true =
      if_found-Updates (released g qty) (cancelled qty true) refl released-IsValid lookup-released
  cancel_level-Updates false =
      if_found-Updates (λ i. deduct_qty g i qty) (cancelled qty false) refl deduct_qty-IsValid
        lookup-deduct_qty

  pub partial_fill_level-Updates :
      Updates max_levels d p g
        (is_some (lookup p (live g)))
        (cancelled qty false (lookup p (live g)))
        (partial_fill_level g d p qty)
  unfolding partial_fill_level
  partial_fill_level-Updates =
      if_found-Updates (λ i. deduct_qty g i qty) (cancelled qty false) refl deduct_qty-IsValid
        lookup-deduct_qty

  pub full_fill_level-Updates :
      Updates max_levels d p g
        (is_some (lookup p (live g)))
        (cancelled qty true (lookup p (live g)))
        (full_fill_level g d p qty)
  unfolding full_fill_level
  full_fill_level-Updates =
      if_found-Updates (released g qty) (cancelled qty true) refl released-IsValid lookup-released

  -- the update of `trade_anon`
  abbrev anon_update : ℕ → Grid
  anon_update i =
      let g' = deduct_qty g i qty in
      if (level_at g'.levels i).total_qty == 0 then release_order g' i else g'

  anon_update-IsValid :
      (i : ℕ) → At d p g i (level_at g.levels i) → IsValid max_levels d (anon_update i)
  anon_update-IsValid i a =
      if_IsValid ((level_at (deduct_qty g i qty).levels i).total_qty == 0) (released-IsValid i a)
        (deduct_qty-IsValid i a)

  lookup-anon_update :
      (i : ℕ)
      → At d p g i (level_at g.levels i)
      → (q : ℕ)
      → lookup q (live (anon_update i))
        ≡ (if p == q then anon_filled qty (some (level_at g.levels i)) else lookup q (live g))
  lookup-anon_update i a q = ground (
    arith,
    lookup-released i a q,
    lookup-deduct_qty i a q,
    ap (λ (m : Level). m.total_qty) (At-deduct_qty i a).holds,
  )

  -- On a valid side `trade_anon` takes the quantity off the level of the price if there is one, and
  -- one order only when no quantity is left. Every other price keeps its level, and the side stays
  -- valid.
  pub anon_fill_level-Updates :
      Updates max_levels d p g
        (is_some (lookup p (live g)))
        (anon_filled qty (lookup p (live g)))
        (anon_fill_level g d p qty)
  unfolding anon_fill_level
  anon_fill_level-Updates =
      if_found-Updates anon_update (anon_filled qty) refl anon_update-IsValid lookup-anon_update

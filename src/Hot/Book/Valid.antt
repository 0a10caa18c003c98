-- ===== src/Hot/Book/Valid.antt =====
-- The book's invariant: both sides are sorted arrays that fit, and the slab's index is sound. Every
-- event keeps it, whatever its fields hold.
use flowlab.Prelude.{
  ℕ, suc, ◌-◌, ◌≤◌, Bool, true, false, not, Option, none, some, ◌||◌, leb, ◌==◌, if◌then◌else◌, min,
  arith, length, Bool-cases, inl, inr,
}
use flowlab.Event.{Event}
use flowlab.Hot.Grid.{Grid}
use flowlab.Hot.Grid.Laws as GridLaws
use flowlab.Hot.Grid.Deduct.{
  cancel_level-Updates, partial_fill_level-Updates, full_fill_level-Updates,
  anon_fill_level-Updates,
}
use flowlab.Hot.Slab as OrderSlab
use flowlab.Hot.Slab.{OrderMeta, OrderSlab, empty_slab}
use flowlab.Hot.Slab.Valid as SlabValid
use flowlab.Hot.Slab.Valid.{
  insert-IsValid, set_meta-IsValid, remove-IsValid, length-insert, length-set_meta, length-remove,
}
use flowlab.Hot.Book.{
  HotBook, grid, with_grid, is_bid_side, cancel_resolved, cancel_known, cancel_order, trade_anon,
  trade_full_fill, trade_known, trade,
}

-- `used` bounds the slots of the slab.
pub record IsValid (max_levels : ℕ) (used : ℕ) (b : HotBook) : Type 0 where
  pub bids : GridLaws.IsValid max_levels true b.bids
  pub asks : GridLaws.IsValid max_levels false b.asks
  pub orders : SlabValid.IsValid b.orders
  pub slots : length b.orders.payload ≤ used

module _ {max_levels used : ℕ} where
  pub grid-IsValid :
      (d : Bool) {b : HotBook}
      → IsValid max_levels used b
      → GridLaws.IsValid max_levels d (grid d b)
  grid-IsValid true v = v.bids
  grid-IsValid false v = v.asks

  pub with_grid-IsValid :
      (d : Bool) (b : HotBook) (g : Grid)
      → IsValid max_levels used b
      → GridLaws.IsValid max_levels d g
      → IsValid max_levels used (with_grid d b g)
  with_grid-IsValid true b g v w = record {
    bids = w;
    asks = v.asks;
    orders = v.orders;
    slots = v.slots;
  }
  with_grid-IsValid false b g v w = record {
    bids = v.bids;
    asks = w;
    orders = v.orders;
    slots = v.slots;
  }

  pub more_slots : {b : HotBook} → IsValid max_levels used b → IsValid max_levels (suc used) b
  more_slots v = record { bids = v.bids; asks = v.asks; orders = v.orders; slots = omega arith }

  pub if_IsValid :
      (c : Bool) {b b' : HotBook}
      → IsValid max_levels used b
      → IsValid max_levels used b'
      → IsValid max_levels used (if c then b else b')
  if_IsValid true v w = v
  if_IsValid false v w = w

  removed-IsValid :
      (b : HotBook) (k : ℕ)
      → IsValid max_levels used b
      → IsValid max_levels used (record b { orders = OrderSlab.remove b.orders k })
  removed-IsValid b k v = record {
    bids = v.bids;
    asks = v.asks;
    orders = remove-IsValid b.orders k v.orders;
    slots = omega (arith, length-remove b.orders k, v.slots);
  }

  changed-IsValid :
      (b : HotBook) (k : ℕ) (m : OrderMeta)
      → IsValid max_levels used b
      → IsValid max_levels used (record b { orders = OrderSlab.set_meta b.orders k m })
  changed-IsValid b k m v = record {
    bids = v.bids;
    asks = v.asks;
    orders = set_meta-IsValid b.orders k m v.orders;
    slots = omega (arith, length-set_meta b.orders k m, v.slots);
  }

  cancel_resolved-IsValid :
      (b : HotBook) (p q : ℕ) (d r : Bool)
      → IsValid max_levels used b
      → IsValid max_levels used (cancel_resolved b p q d r).1
  unfolding cancel_resolved
  cancel_resolved-IsValid b p q d r v =
      with_grid-IsValid d b _ v (cancel_level-Updates (grid-IsValid d v) p q r).valid

  cancel_known-IsValid :
      (b : HotBook) (e : Event) (o : Option OrderMeta)
      → IsValid max_levels used b
      → IsValid max_levels used (cancel_known b e o).1
  unfolding cancel_known
  cancel_known-IsValid b e none v = v
  cancel_known-IsValid b e (some m) v = elim (Bool-cases (e.qty == 0 || leb m.qty e.qty)) [
    | inl h ↦ rw h (
        cancel_resolved-IsValid _ m.price m.qty (is_bid_side m.side) true
          (removed-IsValid b e.order_id v))
    | inr h ↦ rw h (
        cancel_resolved-IsValid _ m.price e.qty (is_bid_side m.side) false
          (changed-IsValid b e.order_id (record m { qty = m.qty - e.qty }) v))
  ]

  -- A cancellation keeps the invariant.
  pub cancel_order-IsValid :
      (b : HotBook) (e : Event)
      → IsValid max_levels used b
      → IsValid max_levels used (cancel_order b e).1
  unfolding cancel_order
  cancel_order-IsValid b e v = elim (Bool-cases (e.order_id == 0)) [
    | inl h ↦
        rw (cancel_order, h) (cancel_resolved-IsValid b e.price e.qty (is_bid_side e.side) true v)
    | inr h ↦ rw (cancel_order, h) (cancel_known-IsValid b e (OrderSlab.get b.orders e.order_id) v)
  ]

  trade_full_fill-IsValid :
      (b : HotBook) (k p q : ℕ) (d : Bool)
      → IsValid max_levels used b
      → IsValid max_levels used (trade_full_fill b k p q d).1
  unfolding trade_full_fill
  trade_full_fill-IsValid b k p q d v =
      with_grid-IsValid d _ _ (removed-IsValid b k v)
        (full_fill_level-Updates (grid-IsValid d v) p q).valid

  trade_known-IsValid :
      (b : HotBook) (e : Event) (o : Option OrderMeta)
      → IsValid max_levels used b
      → IsValid max_levels used (trade_known b e o).1
  unfolding trade_known
  trade_known-IsValid b e none v = v
  trade_known-IsValid b e (some m) v = elim (Bool-cases (not ((m.qty - min e.qty m.qty) == 0))) [
    | inl h ↦ rw h (
        with_grid-IsValid (is_bid_side m.side) _ _
          (changed-IsValid b e.order_id (record m { qty = m.qty - min e.qty m.qty }) v)
          (partial_fill_level-Updates (grid-IsValid (is_bid_side m.side) v) m.price
            (min e.qty m.qty)).valid)
    | inr h ↦
        rw h (trade_full_fill-IsValid b e.order_id m.price (min e.qty m.qty) (is_bid_side m.side) v)
  ]

  pub trade-IsValid :
      (b : HotBook) (e : Event) → IsValid max_levels used b → IsValid max_levels used (trade b e).1
  unfolding trade trade_anon
  trade-IsValid b e v = elim (Bool-cases (e.order_id == 0)) [
    | inl h ↦ rw h (
        with_grid-IsValid (is_bid_side e.side) b _ v
          (anon_fill_level-Updates (grid-IsValid (is_bid_side e.side) v) e.price e.qty).valid)
    | inr h ↦ rw h (trade_known-IsValid b e (OrderSlab.get b.orders e.order_id) v)
  ]

-- ===== src/Hot/Book/Run.antt =====
-- From a new book, any stream of fewer than 2 ^ 32 events keeps the invariant.
use flowlab.Prelude.{
  ℕ, suc, ◌+◌, ◌≤◌, ◌<◌, not, Option, none, some, List, [], ◌∷◌, ◌&&◌, ◌==◌, arith, subst,
  length-replicate, length, u32_mod,
}
use flowlab.Event.{Event, event_type_from_u8, EventType}
use flowlab.Hot.Grid.{new_grid, add_level}
use flowlab.Hot.Grid.Add.{add_level-Updates}
use flowlab.Hot.Slab.{OrderMeta}
use flowlab.Hot.Grid.Live.{Fits}
use flowlab.Hot.Slab.Valid.{empty_slab-IsValid, insert-IsValid, length-insert}
use flowlab.Hot.Book.{
  HotBook, new, grid, with_grid, is_bid_side, record_order, add_order, cancel_order, apply_type,
  apply, run,
}
use flowlab.Hot.Book.Valid.{
  IsValid, grid-IsValid, with_grid-IsValid, more_slots, if_IsValid, cancel_order-IsValid,
  trade-IsValid,
}

module _ {max_levels used : ℕ} where
  recorded-IsValid :
      (b : HotBook) (e : Event)
      → used < u32_mod
      → IsValid max_levels used b
      → IsValid max_levels (suc used) (record_order b e)
  recorded-IsValid b e room v =
      let m : OrderMeta = record { price = e.price; qty = e.qty; side = e.side } in
      record {
        bids = v.bids;
        asks = v.asks;
        orders = insert-IsValid b.orders e.order_id m v.orders (omega arith);
        slots = omega (arith, length-insert b.orders e.order_id m, v.slots);
      }

  pub add_order-IsValid :
      (b : HotBook) (e : Event)
      → used < u32_mod
      → IsValid max_levels used b
      → IsValid max_levels (suc used) (add_order max_levels b e).1
  unfolding add_order
  add_order-IsValid b e room v =
      let d = is_bid_side e.side in
      let r = add_level max_levels (grid d b) d e.price e.qty in
      let w : IsValid max_levels used (with_grid d b r.1) =
        with_grid-IsValid d b r.1 v (add_level-Updates (grid-IsValid d v) e.price e.qty).valid in
      if_IsValid (r.0 && not (e.order_id == 0)) (recorded-IsValid _ e room w) (more_slots w)

  apply_type-IsValid :
      (b : HotBook) (e : Event) (t : Option EventType)
      → used < u32_mod
      → IsValid max_levels used b
      → IsValid max_levels (suc used) (apply_type max_levels b e t).1
  unfolding apply_type
  apply_type-IsValid b e none room v = more_slots v
  apply_type-IsValid b e (some EventType.order_add) room v = add_order-IsValid b e room v
  apply_type-IsValid b e (some EventType.order_cancel) room v =
      more_slots (cancel_order-IsValid b e v)
  apply_type-IsValid b e (some EventType.order_modify) room v =
      add_order-IsValid (cancel_order b e).1 e room (cancel_order-IsValid b e v)
  apply_type-IsValid b e (some EventType.trade) room v = more_slots (trade-IsValid b e v)
  apply_type-IsValid b e (some EventType.book_snapshot) room v = more_slots v

  -- One event keeps the invariant: both arrays stay full, sorted and in bounds, and every slot of
  -- the index stays live, as long as the slab has fewer than 2 ^ 32 slots.
  pub apply-IsValid :
      (b : HotBook) (e : Event)
      → used < u32_mod
      → IsValid max_levels used b
      → IsValid max_levels (suc used) (apply max_levels b e).1
  unfolding apply
  apply-IsValid b e = apply_type-IsValid b e (event_type_from_u8 e.event_type)

-- A new book is valid.
pub new-IsValid :
    (max_levels id : ℕ) → max_levels < u32_mod → IsValid max_levels 0 (new max_levels id)
unfolding new
new-IsValid max_levels id small = record {
  bids = record { fits = empty_fits; sorted = tt };
  asks = record { fits = empty_fits; sorted = tt };
  orders = empty_slab-IsValid;
  slots = omega arith;
}
  where
    empty_fits : Fits max_levels (new_grid max_levels)
    empty_fits = record {
      full = length-replicate max_levels _;
      within = omega arith;
      small = small;
    }

-- Whatever fields the events of a stream hold, the book that `apply` leaves after it keeps both
-- arrays full, strictly sorted and in bounds and every index entry on a live slot of its own, if the
-- book was so before and the slots used and the events together are at most 2 ^ 32.
pub run-IsValid :
    (max_levels used : ℕ) (b : HotBook) (events : List Event)
    → IsValid max_levels used b
    → used + length events ≤ u32_mod
    → IsValid max_levels (used + length events) (run max_levels b events)
unfolding run
run-IsValid max_levels used b [] v room = subst (λ n. IsValid max_levels n b) (omega arith) v
run-IsValid max_levels used b (e ∷ es) v room =
    subst (λ n. IsValid max_levels n (run max_levels b (e ∷ es))) (omega arith)
      (run-IsValid max_levels (suc used) (apply max_levels b e).1 es
        (apply-IsValid b e (omega arith) v) (omega arith))

-- ===== src/Tracker/Follows.antt =====
-- The tracker keeps the orders that the reference book keeps.
use flowlab.Prelude.{
  ℕ, ◌-◌, true, false, ◌≡◌, ◌≢◌, refl, ◌∙◌, ap, sym, Option, none, some, leb, ◌==◌, ◌||◌, arith,
  Bool-cases, inl, inr,
}
use flowlab.Event.{Event, Side, bid, ask, side_to_u8, side_from_u8}
use flowlab.Map
use flowlab.Map.{Map}
use flowlab.Map.Laws as MapLaws
use flowlab.Reference
use flowlab.Reference.{Order, OrderBook, with_levels}
use flowlab.Ladder.{Level}
use flowlab.Tracker.{
  AggressorSide, OrderMeta, OrderTracker, anonymous_update, aggressor_from_resting_side,
  resolved_qty, take_qty, added, on_add, cancel_known, on_cancel, trade_resting, trade_known,
  on_trade,
}

abbrev pub meta_of : Option Order → Option OrderMeta
meta_of none = none
meta_of (some o) = some (record { side = side_to_u8 o.side; price = o.price; qty = o.qty })

-- The same order under every id.
abbrev pub Follows : OrderTracker → OrderBook → Type 0
Follows t b = (k : ℕ) → Map.get k t.orders ≡ meta_of (Map.get k b.orders)

orders_of : (s : Side) (b : OrderBook) (m : Map Level) → (with_levels s b m).orders ≡ b.orders
orders_of bid b m = refl
orders_of ask b m = refl

module _ (t : OrderTracker) (b : OrderBook) (k : ℕ) where
  insert_both :
      (id : ℕ) (o : Order)
      → Map.get k t.orders ≡ meta_of (Map.get k b.orders)
      → Map.get k (
          Map.insert id
            (record { side = side_to_u8 o.side; price = o.price; qty = o.qty })
            t.orders)
        ≡ meta_of (Map.get k (Map.insert id o b.orders))
  insert_both id o f =
      let m : OrderMeta = record { side = side_to_u8 o.side; price = o.price; qty = o.qty } in
      ground (arith, MapLaws.get-insert id k m t.orders, MapLaws.get-insert id k o b.orders, f)

  remove_both :
      (id : ℕ)
      → Map.get k t.orders ≡ meta_of (Map.get k b.orders)
      → Map.get k (Map.remove id t.orders) ≡ meta_of (Map.get k (Map.remove id b.orders))
  remove_both id f =
      ground (arith, MapLaws.get-remove id k t.orders, MapLaws.get-remove id k b.orders, f)

-- the order that an add event enters
abbrev entered : Event → Side → Order
entered e s = record { order_id = e.order_id; price = e.price; qty = e.qty; side = s }

sided : (s : Side) → leb (side_to_u8 s) 1 ≡ true
sided bid = refl
sided ask = refl

add_on_side-Follows :
    (t : OrderTracker) (b : OrderBook) (e : Event) (s : Side)
    → e.order_id ≢ 0
    → e.side ≡ side_to_u8 s
    → Follows t b
    → Follows
        (added t e (anonymous_update e.side e.price e.qty)).1
        (Reference.add_on_side b e (some s)).1
unfolding added anonymous_update Reference.add_on_side
add_on_side-Follows t b e s named side f k =
    let known : (e.order_id == 0) ≡ false = ground arith in
    rw (side, sided s, known) (insert_both t b k e.order_id (entered e s) (f k))

-- what both leave of a known order of which `qty` shares are cancelled
cancel_known-Follows :
    (t : OrderTracker) (b : OrderBook) (e : Event) (o : Option Order)
    → Follows t b
    → Follows (cancel_known t e (meta_of o)).1 (Reference.cancel_found b e o).1
unfolding cancel_known take_qty resolved_qty Reference.cancel_found
cancel_known-Follows t b e none f k = f k
cancel_known-Follows t b e (some o) f k = elim (Bool-cases (e.qty == 0 || leb o.qty e.qty)) [
  | inl whole ↦
      let all : leb o.qty o.qty ≡ true = ground arith in
      rw (whole, all)
        (remove_both t b k e.order_id (f k)
          ∙ ap (λ m. meta_of (Map.get k m))
              (sym (orders_of o.side (record b { orders = Map.remove e.order_id b.orders }) _)))
  | inr part ↦
      let less : leb o.qty e.qty ≡ false = ground arith in
      let rest : Order = record o { qty = o.qty - e.qty } in
      rw (part, less)
        (insert_both t b k e.order_id rest (f k)
          ∙ ap (λ m. meta_of (Map.get k m))
              (sym
                (orders_of o.side (record b { orders = Map.insert e.order_id rest b.orders }) _)))
]

aggressor-known :
    (s : Side) → (a : AggressorSide) × (aggressor_from_resting_side (side_to_u8 s) ≡ some a)
unfolding aggressor_from_resting_side
aggressor-known bid = (AggressorSide.sell, refl)
aggressor-known ask = (AggressorSide.buy, refl)

trade_known-Follows :
    (t : OrderTracker) (b : OrderBook) (e : Event) (o : Option Order)
    → e.qty ≢ 0
    → Follows t b
    → Follows (trade_known t e (meta_of o)).1 (Reference.trade_found b e o).1
unfolding trade_known trade_resting take_qty resolved_qty Reference.trade_found
trade_known-Follows t b e none filled f k = f k
trade_known-Follows t b e (some o) filled f k =
    let (a, aggressor) = aggressor-known o.side in
    let some_qty : (e.qty == 0) ≡ false = ground arith in
    elim (Bool-cases (leb o.qty e.qty)) [
      | inl whole ↦
          let all : leb o.qty o.qty ≡ true = ground arith in
          let nothing : ((o.qty - e.qty) == 0) ≡ true = ground arith in
          rw (aggressor, some_qty, whole, all, nothing) (remove_both t b k e.order_id (f k))
      | inr part ↦
          let rest : Order = record o { qty = o.qty - e.qty } in
          let some_left : ((o.qty - e.qty) == 0) ≡ false = ground arith in
          rw (aggressor, some_qty, part, part, some_left) (insert_both t b k e.order_id rest (f k))
    ]

-- A tracker that has the same orders as a reference book (price, remaining quantity and side under
-- every id) has them still after it saw an add, a cancel or a trade that the book applied, if the
-- event names an order, the side of an add is one of a book and the quantity of a trade is not 0.
pub event-Follows :
    (t : OrderTracker) (b : OrderBook) (e : Event)
    → e.order_id ≢ 0
    → Follows t b
    → ((s : Side)
        → side_from_u8 e.side ≡ some s
        → Follows (on_add t e).1 (Reference.add_order b e).1)
      × Follows (on_cancel t e).1 (Reference.cancel_order b e).1
      × (e.qty ≢ 0 → Follows (on_trade t e).1 (Reference.execute_trade b e).1)
unfolding on_add on_cancel on_trade Reference.add_order Reference.cancel_order
    Reference.execute_trade
event-Follows t b e named f =
    let known : (e.order_id == 0) ≡ false = ground arith in
    (
      λ s decoded. rw decoded (add_on_side-Follows t b e s named (side_of e.side s decoded) f),
      rw (known, f e.order_id) (cancel_known-Follows t b e (Map.get e.order_id b.orders) f),
      λ filled.
          rw (known, f e.order_id)
            (trade_known-Follows t b e (Map.get e.order_id b.orders) filled f),
    )
  where
    side_of : (v : ℕ) (s : Side) → side_from_u8 v ≡ some s → v ≡ side_to_u8 s
    side_of v bid d = unfold side_from_u8 in ground arith
    side_of v ask d = unfold side_from_u8 in ground arith

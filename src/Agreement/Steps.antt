-- ===== src/Agreement/Steps.antt =====
-- Each operation keeps the two books in agreement.
use flowlab.Prelude.{
  ℕ, suc, ◌-◌, ◌<◌, Bool, true, false, ◌≡◌, ◌≢◌, refl, ◌∙◌, ap, Option, none, some, ◌==◌, ◌||◌,
  arith, u32_mod, u64_mod, leb, min, Bool-cases, inl, inr,
}
use flowlab.Event.{Event, Side, bid, ask, side_to_u8}
use flowlab.Map
use flowlab.Map.{Map}
use flowlab.Ladder.{Level, lookup}
use flowlab.Hot.Grid.{Grid, live, add_level, cancel_level, partial_fill_level, full_fill_level}
use flowlab.Hot.Grid.Deduct.{
  cancel_level-Updates, partial_fill_level-Updates, full_fill_level-Updates, cancelled,
}
use flowlab.Hot.Grid.Add.{add_level-Updates, takes, joined}
use flowlab.Hot.Slab as OrderSlab
use flowlab.Hot.Slab.{OrderMeta, OrderSlab}
use flowlab.Hot.Book as Hot
use flowlab.Hot.Book.{HotBook, grid, with_grid, is_bid_side}
use flowlab.Reference
use flowlab.Reference.{Order, OrderBook, side_levels, with_levels, join_level, deduct_level}
use flowlab.Reference.Laws.{
  join_level-IsValid, get-join_level, deduct_level-IsValid, get-deduct_level,
}
use flowlab.Agreement.Relation.{
  SideAgrees, OrdersAgree, Agrees, is_bid, meta_of, on_side, with_side, update_both, remove_both,
  change_both, insert_both,
}

-- new orders in agreement, and one side
with_orders :
    {max_levels used used' : ℕ} {h : HotBook} {r : OrderBook} (s : OrderSlab) (m : Map Order)
    → Agrees max_levels used h r
    → OrdersAgree used' s m
    → Agrees max_levels used' (record h { orders = s }) (record r { orders = m })
with_orders s m a o = record { bids = a.bids; asks = a.asks; orders = o }

-- The same with the side written before the orders, in the reference book or in both.
module _ {max_levels used used' : ℕ} {h : HotBook} {r : OrderBook} where
  orders_after_levels :
      (side : Side) (g : Grid) (m : Map Level) (s : OrderSlab) (n : Map Order)
      → Agrees max_levels used h r
      → SideAgrees max_levels (is_bid side) g m
      → OrdersAgree used' s n
      → Agrees max_levels used'
          (with_grid (is_bid side) (record h { orders = s }) g)
          (record (with_levels side r m) { orders = n })
  orders_after_levels bid g m s n a b o = record { bids = b; asks = a.asks; orders = o }
  orders_after_levels ask g m s n a b o = record { bids = a.bids; asks = b; orders = o }

  orders_after_both :
      (side : Side) (g : Grid) (m : Map Level) (s : OrderSlab) (n : Map Order)
      → Agrees max_levels used h r
      → SideAgrees max_levels (is_bid side) g m
      → OrdersAgree used' s n
      → Agrees max_levels used'
          (record (with_grid (is_bid side) h g) { orders = s })
          (record (with_levels side r m) { orders = n })
  orders_after_both bid g m s n a b o = record { bids = b; asks = a.asks; orders = o }
  orders_after_both ask g m s n a b o = record { bids = a.bids; asks = b; orders = o }

pub orders_of_with_grid :
    (side : Side) (h : HotBook) (g : Grid) → (with_grid (is_bid side) h g).orders ≡ h.orders
orders_of_with_grid bid h g = refl
orders_of_with_grid ask h g = refl

module _ {max_levels used : ℕ} {h : HotBook} {r : OrderBook} (a : Agrees max_levels used h r) where
  -- the level update of a cancellation, or of a fill
  cancelled_both :
      (s : Side) (p q : ℕ) (release : Bool)
      → SideAgrees max_levels
          (is_bid s)
          (cancel_level (grid (is_bid s) h) (is_bid s) p q release).1
          (deduct_level (side_levels s r) p q release)
  cancelled_both s p q release =
      let side = on_side s a in
      update_both _ _ side (cancel_level-Updates side.array p q release)
        (deduct_level-IsValid _ side.tree p q release) (get-deduct_level _ side.tree p q release)
        (ap (cancelled q release) (side.same p))

  partly_filled_both :
      (s : Side) (p q : ℕ)
      → SideAgrees max_levels
          (is_bid s)
          (partial_fill_level (grid (is_bid s) h) (is_bid s) p q).1
          (deduct_level (side_levels s r) p q false)
  partly_filled_both s p q =
      let side = on_side s a in
      update_both _ _ side (partial_fill_level-Updates side.array p q)
        (deduct_level-IsValid _ side.tree p q false) (get-deduct_level _ side.tree p q false)
        (ap (cancelled q false) (side.same p))

  filled_both :
      (s : Side) (p q : ℕ)
      → SideAgrees max_levels
          (is_bid s)
          (full_fill_level (grid (is_bid s) h) (is_bid s) p q).1
          (deduct_level (side_levels s r) p q true)
  filled_both s p q =
      let side = on_side s a in
      update_both _ _ side (full_fill_level-Updates side.array p q)
        (deduct_level-IsValid _ side.tree p q true) (get-deduct_level _ side.tree p q true)
        (ap (cancelled q true) (side.same p))

  known_order :
      (k : ℕ) (o : Order)
      → Map.get k r.orders ≡ some o
      → OrderSlab.get h.orders k ≡ meta_of (some o)
  known_order k o found = a.orders.same k ∙ ap meta_of found

  cancel_found_step :
      (e : Event) (o : Option Order)
      → Map.get e.order_id r.orders ≡ o
      → Agrees max_levels used (Hot.cancel_known h e (meta_of o)).1 (Reference.cancel_found r e o).1
  unfolding Hot.cancel_known Hot.cancel_resolved Reference.cancel_found
  cancel_found_step e none found = a
  cancel_found_step e (some o) found = elim (Bool-cases (e.qty == 0 || leb o.qty e.qty)) [
    | inl whole ↦ rw whole (
        with_side o.side _ _ (with_orders _ _ a (remove_both a.orders e.order_id))
          (cancelled_both o.side o.price o.qty true))
    | inr part ↦ rw part (
        with_side o.side _ _
          (with_orders _ _ a (
            change_both a.orders e.order_id (record o { qty = o.qty - e.qty }) _
              (known_order e.order_id o found)))
          (cancelled_both o.side o.price e.qty false))
  ]

  pub cancel_step :
      (e : Event)
      → e.order_id ≢ 0
      → Agrees max_levels used (Hot.cancel_order h e).1 (Reference.cancel_order r e).1
  unfolding Hot.cancel_order Reference.cancel_order
  cancel_step e named =
      let known : (e.order_id == 0) ≡ false = ground arith in
      rw (known, a.orders.same e.order_id) (cancel_found_step e (Map.get e.order_id r.orders) refl)

  trade_found_step :
      (e : Event) (o : Option Order)
      → Map.get e.order_id r.orders ≡ o
      → Agrees max_levels used (Hot.trade_known h e (meta_of o)).1 (Reference.trade_found r e o).1
  unfolding Hot.trade_known Hot.trade_full_fill Reference.trade_found
  trade_found_step e none found = a
  trade_found_step e (some o) found =
      let left : o.qty - min e.qty o.qty ≡ o.qty - e.qty = omega arith in
      rw left (elim (Bool-cases ((o.qty - e.qty) == 0)) [
        | inl done ↦ rw done (
            orders_after_levels o.side _ _ _ _ a (filled_both o.side o.price (min e.qty o.qty))
              (remove_both a.orders e.order_id))
        | inr more ↦ rw more (
            orders_after_levels o.side _ _ _ _ a
              (partly_filled_both o.side o.price (min e.qty o.qty))
              (change_both a.orders e.order_id (record o { qty = o.qty - e.qty }) _
                (known_order e.order_id o found)))
      ])

  pub trade_step :
      (e : Event)
      → e.order_id ≢ 0
      → Agrees max_levels used (Hot.trade h e).1 (Reference.execute_trade r e).1
  unfolding Hot.trade Reference.execute_trade
  trade_step e named =
      let known : (e.order_id == 0) ≡ false = ground arith in
      rw (known, a.orders.same e.order_id) (trade_found_step e (Map.get e.order_id r.orders) refl)

  module _ (e : Event) (room : used < u32_mod) (named : e.order_id ≢ 0)
      (word : e.qty < u64_mod) where
    joined_both :
        (s : Side)
        → takes max_levels (grid (is_bid s) h) (lookup e.price (live (grid (is_bid s) h))) ≡ true
        → SideAgrees max_levels
            (is_bid s)
            (add_level max_levels (grid (is_bid s) h) (is_bid s) e.price e.qty).1
            (join_level (side_levels s r) e.price e.qty)
    joined_both s accepted =
        let at = on_side s a in
        update_both _ (some (joined e.price e.qty (Map.get e.price (side_levels s r)))) at
          (add_level-Updates at.array e.price e.qty) (join_level-IsValid _ at.tree e.price e.qty)
          (λ q. get-join_level _ at.tree e.price e.qty q word)
          (rw accepted (ap (λ o. some (joined e.price e.qty o)) (at.same e.price)))

    -- The side of the event is decoded, and the array takes its price.
    pub add_on_side_step :
        (s : Side)
        → e.side ≡ side_to_u8 s
        → takes max_levels (grid (is_bid s) h) (lookup e.price (live (grid (is_bid s) h))) ≡ true
        → Agrees max_levels
            (suc used)
            (Hot.add_order max_levels h e).1
            (Reference.add_on_side r e (some s)).1
    unfolding Hot.add_order Reference.add_on_side
    add_on_side_step s side accepted =
        let known : (e.order_id == 0) ≡ false = ground arith in
        let u = add_level-Updates (on_side s a).array e.price e.qty in
        let order : Order = record {
          order_id = e.order_id;
          price = e.price;
          qty = e.qty;
          side = s;
        } in
        rw (side, u.flagged, accepted, known, orders_of_with_grid s h)
          (orders_after_both s _ _ _ _ a (joined_both s accepted)
            (insert_both a.orders e.order_id order room))

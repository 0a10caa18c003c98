-- ===== src/Hot/Book.antt =====
-- `HotOrderBook` of core/src/hot_book.rs: the two sides, the slab, and every operation on them.
-- `prefetch_event` has no effect on the state and is left out.
pub mod Reads
pub mod Valid
pub mod Run
pub mod Lanes
use flowlab.Prelude.{
  ℕ, suc, ◌-◌, Bool, true, false, not, Option, none, some, List, [], ◌∷◌, ◌&&◌, ◌||◌, ltb, leb,
  ◌==◌, if◌then◌else◌, min,
}
use flowlab.Event.{
  Event, event_type_from_u8, order_add, order_cancel, order_modify, book_snapshot, EventType,
}
use flowlab.Hot.Grid.{
  Grid, new_grid, add_level, cancel_level, partial_fill_level, full_fill_level, anon_fill_level,
}
use flowlab.Hot.Slab as OrderSlab
use flowlab.Hot.Slab.{OrderMeta, OrderSlab, empty_slab}

pub record HotBook : Type 0 where
  pub instrument_id : ℕ
  pub bids : Grid
  pub asks : Grid
  pub orders : OrderSlab

-- `HotOrderBook::new`
unfoldable pub new : ℕ → ℕ → HotBook
unfolding new_grid
new max_levels instrument_id = record {
  instrument_id = instrument_id;
  bids = new_grid max_levels;
  asks = new_grid max_levels;
  orders = empty_slab;
}

-- `if is_bid { (&mut self.bids, &mut self.bid_count) } else { … }`, read and written back
abbrev pub grid : Bool → HotBook → Grid
grid is_bid b = if is_bid then b.bids else b.asks

abbrev pub with_grid : Bool → HotBook → Grid → HotBook
with_grid true b g = record b { bids = g }
with_grid false b g = record b { asks = g }

-- `side == Side::Bid as u8`
abbrev pub is_bid_side : ℕ → Bool
is_bid_side side = side == 0

abbrev pub on_grid : Bool → HotBook → Bool × Grid → Bool × HotBook
on_grid is_bid b (changed, g) = (changed, with_grid is_bid b g)

abbrev pub record_order : HotBook → Event → HotBook
record_order b e = record b {
  orders =
      OrderSlab.insert b.orders e.order_id (record { price = e.price; qty = e.qty; side = e.side });
}

unfoldable pub add_order : ℕ → HotBook → Event → Bool × HotBook
add_order max_levels b e =
    let is_bid = is_bid_side e.side in
    let (level_ok, b') =
      on_grid is_bid b (add_level max_levels (grid is_bid b) is_bid e.price e.qty) in
    (level_ok, if level_ok && not (e.order_id == 0) then record_order b' e else b')

-- `cancel_order`, once the level, the quantity and the fate of the slot are resolved
unfoldable pub cancel_resolved : HotBook → ℕ → ℕ → Bool → Bool → Bool × HotBook
cancel_resolved b price qty is_bid release_slot =
    on_grid is_bid b (cancel_level (grid is_bid b) is_bid price qty release_slot)

-- `cancel_order` of an order id: `orders.get_mut(e.order_id)` is the last argument.
unfoldable pub cancel_known : HotBook → Event → Option OrderMeta → Bool × HotBook
cancel_known b e none = (false, b)
cancel_known b e (some meta) =
    if e.qty == 0 || leb meta.qty e.qty
    then cancel_resolved (record b { orders = OrderSlab.remove b.orders e.order_id }) meta.price
        meta.qty (is_bid_side meta.side) true
    else cancel_resolved
        (record b {
          orders = OrderSlab.set_meta b.orders e.order_id (record meta { qty = meta.qty - e.qty });
        })
        meta.price e.qty (is_bid_side meta.side) false

unfoldable pub cancel_order : HotBook → Event → Bool × HotBook
cancel_order b e =
    if e.order_id == 0
    then cancel_resolved b e.price e.qty (is_bid_side e.side) true
    else cancel_known b e (OrderSlab.get b.orders e.order_id)

unfoldable pub trade_anon : HotBook → ℕ → ℕ → Bool → Bool × HotBook
trade_anon b price qty is_bid = on_grid is_bid b (anon_fill_level (grid is_bid b) is_bid price qty)

unfoldable pub trade_full_fill : HotBook → ℕ → ℕ → ℕ → Bool → Bool × HotBook
trade_full_fill b order_id price fill is_bid =
    on_grid is_bid (record b { orders = OrderSlab.remove b.orders order_id })
      (full_fill_level (grid is_bid b) is_bid price fill)

-- `trade` of an order id: `orders.get_mut(e.order_id)` is the last argument.
unfoldable pub trade_known : HotBook → Event → Option OrderMeta → Bool × HotBook
trade_known b e none = (false, b)
trade_known b e (some meta) =
    let fill = min e.qty meta.qty in
    let new_qty = meta.qty - fill in
    let is_bid = is_bid_side meta.side in
    if not (new_qty == 0)
    then on_grid is_bid
        (record b {
          orders = OrderSlab.set_meta b.orders e.order_id (record meta { qty = new_qty });
        })
        (partial_fill_level (grid is_bid b) is_bid meta.price fill)
    else trade_full_fill b e.order_id meta.price fill is_bid

unfoldable pub trade : HotBook → Event → Bool × HotBook
trade b e =
    if e.order_id == 0
    then trade_anon b e.price e.qty (is_bid_side e.side)
    else trade_known b e (OrderSlab.get b.orders e.order_id)

-- `apply`, once the type is decoded
unfoldable pub apply_type : ℕ → HotBook → Event → Option EventType → Bool × HotBook
apply_type max_levels b e none = (false, b)
apply_type max_levels b e (some EventType.order_add) = add_order max_levels b e
apply_type max_levels b e (some EventType.order_cancel) = cancel_order b e
apply_type max_levels b e (some EventType.order_modify) =
    add_order max_levels (cancel_order b e).1 e
apply_type max_levels b e (some EventType.trade) = trade b e
apply_type max_levels b e (some EventType.book_snapshot) = (false, b)

unfoldable pub apply : ℕ → HotBook → Event → Bool × HotBook
apply max_levels b e = apply_type max_levels b e (event_type_from_u8 e.event_type)

-- a stream of events, one `apply` after the other
unfoldable pub run : ℕ → HotBook → List Event → HotBook
run max_levels b [] = b
run max_levels b (e ∷ es) = run max_levels (apply max_levels b e).1 es

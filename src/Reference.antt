-- ===== src/Reference.antt =====
-- `OrderBook` of core/src/orderbook.rs: the reference book over sorted maps. A method returns
-- whether the state changed, and the new state.
pub mod Laws
pub mod Reads
use flowlab.Prelude.{
  ℕ, ◌-◌, Bool, true, false, Option, none, some, List, [], ◌∷◌, ◌||◌, ltb, leb, ◌==◌, if◌then◌else◌,
  min, add_u64, add_u32, foldl,
}
use flowlab.Event.{Event, EventType, event_type_from_u8, Side, bid, ask, side_from_u8}
use flowlab.Map
use flowlab.Map.{Map}
use flowlab.Ladder.{Level}

pub record Order : Type 0 where
  pub order_id : ℕ
  pub price : ℕ
  pub qty : ℕ
  pub side : Side

pub record OrderBook : Type 0 where
  pub instrument_id : ℕ
  pub bids : Map Level
  pub asks : Map Level
  pub orders : Map Order

unfoldable pub new : ℕ → OrderBook
new instrument_id = record { instrument_id = instrument_id; bids = []; asks = []; orders = [] }

-- `match side { Bid => &mut self.bids, Ask => &mut self.asks }`, read and written back
abbrev pub side_levels : Side → OrderBook → Map Level
side_levels bid b = b.bids
side_levels ask b = b.asks

abbrev pub with_levels : Side → OrderBook → Map Level → OrderBook
with_levels bid b m = record b { bids = m }
with_levels ask b m = record b { asks = m }

-- `entry(price).or_insert_with(…)`, then the two updates
abbrev pub entry_level : ℕ → Option Level → Level
entry_level price none = record { price = price; total_qty = 0; order_count = 0 }
entry_level price (some l) = l

unfoldable pub join_level : Map Level → ℕ → ℕ → Map Level
join_level m price qty =
    let l = entry_level price (Map.get price m) in
    Map.insert price
      (record l { total_qty = add_u64 l.total_qty qty; order_count = add_u32 l.order_count 1 }) m

-- The level update of `cancel_order`, with `release_slot`, and of `execute_trade`, where the order
-- is released when nothing of it is left. The last argument is `levels.get_mut(&price)`.
unfoldable pub deduct_found : Map Level → ℕ → ℕ → Bool → Option Level → Map Level
deduct_found m price qty release none = m
deduct_found m price qty release (some l) =
    let l' = record l { total_qty = l.total_qty - qty } in
    if release
    then (if (l.order_count - 1) == 0
        then Map.remove price m
        else Map.insert price (record l' { order_count = l.order_count - 1 }) m)
    else Map.insert price l' m

unfoldable pub deduct_level : Map Level → ℕ → ℕ → Bool → Map Level
deduct_level m price qty release = deduct_found m price qty release (Map.get price m)

-- `add_order`, once the side is decoded
unfoldable pub add_on_side : OrderBook → Event → Option Side → Bool × OrderBook
add_on_side b e none = (false, b)
add_on_side b e (some side) =
    let b' = with_levels side b (join_level (side_levels side b) e.price e.qty) in
    let order : Order = record {
      order_id = e.order_id;
      price = e.price;
      qty = e.qty;
      side = side;
    } in
    (true, record b' { orders = Map.insert e.order_id order b.orders })

unfoldable pub add_order : OrderBook → Event → Bool × OrderBook
add_order b e = add_on_side b e (side_from_u8 e.side)

-- `cancel_order`: the last argument is `self.orders.get_mut(&oid)`.
unfoldable pub cancel_found : OrderBook → Event → Option Order → Bool × OrderBook
cancel_found b e none = (false, b)
cancel_found b e (some order) =
    let levels = side_levels order.side b in
    if e.qty == 0 || leb order.qty e.qty
    then (
      true,
      with_levels order.side (record b { orders = Map.remove e.order_id b.orders })
          (deduct_level levels order.price order.qty true),
    )
    else (
      true,
      with_levels order.side
          (record b {
            orders = Map.insert e.order_id (record order { qty = order.qty - e.qty }) b.orders;
          })
          (deduct_level levels order.price e.qty false),
    )

unfoldable pub cancel_order : OrderBook → Event → Bool × OrderBook
cancel_order b e = cancel_found b e (Map.get e.order_id b.orders)

unfoldable pub modify_order : OrderBook → Event → Bool × OrderBook
modify_order b e = add_order (cancel_order b e).1 e

-- `execute_trade`: the last argument is `self.orders.get_mut(&oid)`.
unfoldable pub trade_found : OrderBook → Event → Option Order → Bool × OrderBook
trade_found b e none = (false, b)
trade_found b e (some order) =
    let left = order.qty - e.qty in
    let b' =
      with_levels order.side b
        (deduct_level (side_levels order.side b) order.price (min e.qty order.qty) (left == 0)) in
    (
      true,
      record b' {
        orders =
            if left == 0
            then Map.remove e.order_id b.orders
            else Map.insert e.order_id (record order { qty = left }) b.orders;
      },
    )

unfoldable pub execute_trade : OrderBook → Event → Bool × OrderBook
execute_trade b e = trade_found b e (Map.get e.order_id b.orders)

-- `apply`, once the type is decoded
unfoldable pub apply_type : OrderBook → Event → Option EventType → Bool × OrderBook
apply_type b e none = (false, b)
apply_type b e (some EventType.order_add) = add_order b e
apply_type b e (some EventType.order_cancel) = cancel_order b e
apply_type b e (some EventType.order_modify) = modify_order b e
apply_type b e (some EventType.trade) = execute_trade b e
apply_type b e (some EventType.book_snapshot) = (false, b)

unfoldable pub apply : OrderBook → Event → Bool × OrderBook
apply b e = apply_type b e (event_type_from_u8 e.event_type)

-- a stream of events, one `apply` after the other
unfoldable pub run : OrderBook → List Event → OrderBook
run b [] = b
run b (e ∷ es) = run (apply b e).1 es

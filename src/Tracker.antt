-- ===== src/Tracker.antt =====
-- `OrderTracker` of chaos/src/order_tracker.rs: orders by id, for feeds whose cancels and trades name
-- only the order.
pub mod Follows
mod Tests
use flowlab.Prelude.{
  ℕ, ◌-◌, Bool, true, false, Option, none, some, List, [], ◌∷◌, leb, ◌==◌, ◌||◌, not, if◌then◌else◌,
}
use flowlab.Event.{Event}
use flowlab.Map
use flowlab.Map.{Map}

pub data AggressorSide : Type 0 where
  buy sell : AggressorSide

pub record ResolvedBookUpdate : Type 0 where
  pub side : ℕ
  pub price : ℕ
  pub qty : ℕ

pub record ResolvedTrade : Type 0 where
  pub update : ResolvedBookUpdate
  pub aggressor : AggressorSide

pub record OrderMeta : Type 0 where
  pub side : ℕ
  pub price : ℕ
  pub qty : ℕ

pub record OrderTracker : Type 0 where
  pub orders : Map OrderMeta

abbrev pub new : OrderTracker
new = record { orders = [] }

unfoldable pub anonymous_update : ℕ → ℕ → ℕ → Option ResolvedBookUpdate
anonymous_update side price qty =
    if leb side 1 then some (record { side = side; price = price; qty = qty }) else none

unfoldable pub aggressor_from_resting_side : ℕ → Option AggressorSide
aggressor_from_resting_side side =
    if side == 0
    then some AggressorSide.sell
    else if side == 1
    then some AggressorSide.buy
    else none

unfoldable pub resolved_qty : ℕ → ℕ → ℕ
resolved_qty known_qty event_qty =
    if event_qty == 0 || leb known_qty event_qty then known_qty else event_qty

-- the order, less what was taken of it, or gone with its last share
unfoldable pub take_qty : OrderTracker → ℕ → OrderMeta → ℕ → OrderTracker
take_qty t order_id meta qty = record {
  orders =
      if leb meta.qty qty
      then Map.remove order_id t.orders
      else Map.insert order_id (record meta { qty = meta.qty - qty }) t.orders;
}

-- `on_add`, once the update is resolved
unfoldable pub added :
    OrderTracker → Event → Option ResolvedBookUpdate → Option ResolvedBookUpdate × OrderTracker
added t e none = (none, t)
added t e (some update) = (
  some update,
  if e.order_id == 0 then t else record {
    orders =
        Map.insert e.order_id
          (record { side = update.side; price = update.price; qty = update.qty }) t.orders;
  },
)

unfoldable pub on_add : OrderTracker → Event → Option ResolvedBookUpdate × OrderTracker
on_add t e = added t e (anonymous_update e.side e.price e.qty)

-- `on_cancel` of an id: the last argument is `self.orders.get_mut(&event.order_id)`.
unfoldable pub cancel_known :
    OrderTracker → Event → Option OrderMeta → Option ResolvedBookUpdate × OrderTracker
cancel_known t e (some meta) =
    let qty = resolved_qty meta.qty e.qty in
    (
      some (record { side = meta.side; price = meta.price; qty = qty }),
      take_qty t e.order_id meta qty,
    )
cancel_known t e none = (if e.price == 0 then none else anonymous_update e.side e.price e.qty, t)

unfoldable pub on_cancel : OrderTracker → Event → Option ResolvedBookUpdate × OrderTracker
on_cancel t e =
    if e.order_id == 0
    then (anonymous_update e.side e.price e.qty, t)
    else cancel_known t e (Map.get e.order_id t.orders)

-- the trade of an update, if its side is one of a book
unfoldable pub trade_of : Option ResolvedBookUpdate → Option AggressorSide → Option ResolvedTrade
trade_of (some update) (some aggressor) = some (record { update = update; aggressor = aggressor })
trade_of (some update) none = none
trade_of none a = none

-- a trade that no known order resolves
unfoldable pub anonymous_trade : Event → Option ResolvedTrade
anonymous_trade e =
    trade_of (anonymous_update e.side e.price e.qty) (aggressor_from_resting_side e.side)

-- The early return on a bad side leaves the order as it was.
unfoldable pub trade_resting :
    OrderTracker → Event → OrderMeta → Option AggressorSide → Option ResolvedTrade × OrderTracker
trade_resting t e meta none = (none, t)
trade_resting t e meta (some aggressor) =
    let qty = resolved_qty meta.qty e.qty in
    let price = if e.price == 0 then meta.price else e.price in
    (
      some (record {
        update = record { side = meta.side; price = price; qty = qty };
        aggressor = aggressor;
      }),
      take_qty t e.order_id meta qty,
    )

-- `on_trade` of an id: the last argument is `self.orders.get_mut(&event.order_id)`.
unfoldable pub trade_known :
    OrderTracker → Event → Option OrderMeta → Option ResolvedTrade × OrderTracker
trade_known t e (some meta) = trade_resting t e meta (aggressor_from_resting_side meta.side)
trade_known t e none = (if e.price == 0 then none else anonymous_trade e, t)

unfoldable pub on_trade : OrderTracker → Event → Option ResolvedTrade × OrderTracker
on_trade t e =
    if e.order_id == 0
    then (anonymous_trade e, t)
    else trade_known t e (Map.get e.order_id t.orders)

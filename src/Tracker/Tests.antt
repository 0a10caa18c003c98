-- ===== src/Tracker/Tests.antt =====
-- The tracker at a concrete order, cancelled in part, beside the reference book.
use flowlab.Prelude.{◌≡◌, ◌≢◌, some, [], ◌∷◌, arith}
use flowlab.Event.{Event, Side, side_from_u8}
use flowlab.Map
use flowlab.Reference
use flowlab.Reference.{OrderBook}
use flowlab.Tracker.{OrderTracker, on_add, on_cancel, on_trade}
use flowlab.Tracker.Follows.{Follows, event-Follows}

abbrev event : Event
event = record {
  ts = 0;
  price = 100;
  qty = 2;
  order_id = 7;
  instrument_id = 1;
  event_type = 2;
  side = 0;
  pad = 0;
}

abbrev tracker : OrderTracker
tracker = record { orders = (7, record { side = 0; price = 100; qty = 5 }) ∷ [] }

abbrev book : OrderBook
book = (Reference.add_order (Reference.new 1) (record event { qty = 5 })).1

tracker-Follows : Follows tracker book
unfolding Reference.add_order Reference.add_on_side Reference.new side_from_u8 Map.insert Map.get
tracker-Follows k = ground arith

event-Follows_example :
    ((s : Side)
      → side_from_u8 event.side ≡ some s
      → Follows (on_add tracker event).1 (Reference.add_order book event).1)
    × Follows (on_cancel tracker event).1 (Reference.cancel_order book event).1
    × (event.qty ≢ 0 → Follows (on_trade tracker event).1 (Reference.execute_trade book event).1)
event-Follows_example = event-Follows tracker book event (omega arith) tracker-Follows

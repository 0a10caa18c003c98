-- ===== src/Agreement/Theorem.antt =====
-- The agreement over a whole stream of events.
use flowlab.Prelude.{
  ℕ, suc, ◌+◌, ◌≤◌, ◌<◌, ◌≡◌, refl, subst, Option, none, some, List, [], ◌∷◌, length, All, arith,
  u32_mod, reverse,
}
use flowlab.Event.{Event, EventType, event_type_from_u8}
use flowlab.Map
use flowlab.Map.{Map}
use flowlab.Ladder.{lookup}
use flowlab.Hot.Book as Hot
use flowlab.Hot.Book.{HotBook, grid}
use flowlab.Hot.Book.Run.{new-IsValid}
use flowlab.Hot.Book.Reads.{bid_levels, ask_levels, order_meta}
use flowlab.Reference.Laws as Levels
use flowlab.Hot.Slab as OrderSlab
use flowlab.Hot.Slab.{empty_slab}
use flowlab.Reference
use flowlab.Reference.{OrderBook, side_levels, join_level}
use flowlab.Reference.Laws.{lookup-values, length-values, values-IsSorted}
use flowlab.Agreement.Relation.{Agrees, meta_of}
use flowlab.Agreement.Steps.{cancel_step, trade_step}
use flowlab.Agreement.Room.{IsRegular, Roomy, StaysWithin, asks_agree, bids_agree, add_step}

more_used :
    {max_levels used : ℕ} {h : HotBook} {r : OrderBook}
    → Agrees max_levels used h r
    → Agrees max_levels (suc used) h r
more_used a = record {
  bids = a.bids;
  asks = a.asks;
  orders = record {
    slab = a.orders.slab;
    slots = omega (arith, a.orders.slots);
    same = a.orders.same;
  };
}

apply_type_step :
    {max_levels used : ℕ} {h : HotBook} {r : OrderBook} (e : Event) (t : Option EventType)
    → Agrees max_levels used h r
    → used < u32_mod
    → IsRegular e
    → Roomy max_levels (Reference.apply_type r e t).1
    → Agrees max_levels
        (suc used)
        (Hot.apply_type max_levels h e t).1
        (Reference.apply_type r e t).1
unfolding Hot.apply_type Reference.apply_type Reference.modify_order
apply_type_step e none a small g room = more_used a
apply_type_step e (some EventType.order_add) a small g room = add_step a e small g room
apply_type_step e (some EventType.order_cancel) a small g room = more_used (cancel_step a e g.named)
apply_type_step e (some EventType.order_modify) a small g room =
    add_step (cancel_step a e g.named) e small g room
apply_type_step e (some EventType.trade) a small g room = more_used (trade_step a e g.named)
apply_type_step e (some EventType.book_snapshot) a small g room = more_used a

-- From books that hold the same, a stream of regular events for which the hot book has levels and
-- slots leads to books that hold the same: the same level at each price of each side, and the same
-- order under each id.
pub run-Agrees :
    {max_levels used : ℕ} {h : HotBook} {r : OrderBook} (events : List Event)
    → Agrees max_levels used h r
    → All IsRegular events
    → StaysWithin max_levels r events
    → used + length events ≤ u32_mod
    → Agrees max_levels
        (used + length events)
        (Hot.run max_levels h events)
        (Reference.run r events)
unfolding Hot.run Reference.run
run-Agrees {max_levels} {used} {h} {r} [] a g w room =
    subst (λ n. Agrees max_levels n h r) (omega arith) a
run-Agrees {max_levels} {used} {h} {r} (e ∷ es) a g w room =
    subst (λ n. Agrees max_levels n (Hot.run max_levels h (e ∷ es)) (Reference.run r (e ∷ es)))
      (omega arith)
      (run-Agrees {used = suc used} es
        (unfold Hot.apply Reference.apply in
          apply_type_step e (event_type_from_u8 e.event_type) a (omega arith) g.0 w.0)
        g.1 w.1 (omega arith))

-- New books hold the same.
pub new-Agrees :
    (max_levels id : ℕ)
    → max_levels < u32_mod
    → Agrees max_levels 0 (Hot.new max_levels id) (Reference.new id)
unfolding Hot.new Reference.new
new-Agrees max_levels id small =
    let v = new-IsValid max_levels id small in
    record {
      bids = record { array = v.bids; tree = empty; same = nothing };
      asks = record { array = v.asks; tree = empty; same = nothing };
      orders = record { slab = v.orders; slots = v.slots; same = no_order };
    }
  where
    empty : Levels.IsValid []
    empty = record { ordered = tt; priced = tt }

    nothing : (p : ℕ) → lookup p [] ≡ Map.get p []
    nothing p = unfold lookup Map.get in refl

    no_order : (k : ℕ) → OrderSlab.get empty_slab k ≡ meta_of (Map.get k [])
    no_order k = unfold OrderSlab.get Map.get in refl

-- Both books, started empty with `max_levels` below 2 ^ 32 and given the same regular events, show
-- the same ladder of levels (price, total quantity, order count) on each side, and keep the same
-- price, remaining quantity and side under each order id, as long as the reference book never holds
-- more than `max_levels` prices on a side and the events are at most 2 ^ 32.
pub books_agree :
    (max_levels id : ℕ) (events : List Event)
    → max_levels < u32_mod
    → All IsRegular events
    → StaysWithin max_levels (Reference.new id) events
    → length events ≤ u32_mod
    → let h = Hot.run max_levels (Hot.new max_levels id) events in
      let r = Reference.run (Reference.new id) events in
      (bid_levels h ≡ reverse (Map.values r.bids))
      × (ask_levels h ≡ Map.values r.asks)
      × ((k : ℕ) → order_meta h k ≡ meta_of (Map.get k r.orders))
unfolding order_meta
books_agree max_levels id events small g w room =
    let a = run-Agrees events (new-Agrees max_levels id small) g w (omega arith) in
    (bids_agree a.bids, asks_agree a.asks, a.orders.same)

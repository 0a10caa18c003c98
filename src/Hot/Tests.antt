-- ===== src/Hot/Tests.antt =====
-- The theorems on the book of core/src/hot_book.rs at concrete events.
use flowlab.Prelude.{ℕ, ◌+◌, ◌≡◌, List, [], ◌∷◌, ◌++◌, length, arith}
use flowlab.Event.{Event}
use flowlab.Hot.Slab.{OrderMeta}
use flowlab.Hot.Book.{new, run, HotBook}
use flowlab.Hot.Book.Lanes.{
  apply_lanes, chosen, addition, execution, cancellation, tally, apply_lanes-tally,
}
use flowlab.Hot.Book.Valid.{IsValid}
use flowlab.Hot.Book.Run.{new-IsValid, run-IsValid}

-- The last two events name no order and an unknown side.
abbrev event : ℕ → ℕ → ℕ → ℕ → ℕ → Event
event event_type order_id side price qty = record {
  ts = 0;
  price = price;
  qty = qty;
  order_id = order_id;
  instrument_id = 1;
  event_type = event_type;
  side = side;
  pad = 0;
}

abbrev events : List Event
events =
    event 1 7 0 100 5
    ∷ event 1 8 0 101 4
    ∷ event 2 7 0 0 2
    ∷ event 4 0 0 101 6
    ∷ event 1 9 5 103 6
    ∷ []

abbrev book : HotBook
book = run 4 (new 4 1) events

run-IsValid_example : IsValid 4 (0 + length events) book
run-IsValid_example = run-IsValid 4 0 (new 4 1) events (new-IsValid 4 1 (omega arith)) (omega arith)

abbrev meta : OrderMeta
meta = record { price = 102; qty = 9; side = 0 }

-- with a modification of order 8
abbrev batch : List Event
batch = event 3 8 0 102 9 ∷ events

apply_lanes-tally_example :
    apply_lanes 4 (new 4 1) batch
    ≡ tally 4
        (new 4 1)
        (chosen addition batch ++ (chosen execution batch ++ chosen cancellation batch))
apply_lanes-tally_example = apply_lanes-tally 4 (new 4 1) batch

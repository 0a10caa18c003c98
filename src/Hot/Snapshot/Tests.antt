-- ===== src/Hot/Snapshot/Tests.antt =====
-- Snapshots of concrete books.
use flowlab.Prelude.{◌≡◌, refl, [], ◌∷◌, inr, arith, replicate}
use flowlab.Hot.Grid.{default_level}
use flowlab.Hot.Book.{HotBook}
use flowlab.Hot.Snapshot.{to_snapshot_bytes, from_snapshot_bytes}
use flowlab.Hot.Snapshot.RoundTrip.{IsStorable, Same, from_snapshot_bytes-to_snapshot_bytes}

-- two levels a side, one bid, a free slot, and a level that is no longer in use
abbrev small_book : HotBook
small_book = record {
  instrument_id = 7;
  bids = record {
    levels =
        record { price = 1000; total_qty = 30; order_count = 1 }
        ∷ record { price = 900; total_qty = 5; order_count = 1 }
        ∷ [];
    count = 1;
  };
  asks = record { levels = replicate 2 default_level; count = 0 };
  orders = record {
    payload =
        record { price = 1000; qty = 30; side = 0 }
        ∷ record { price = 900; qty = 5; side = 0 }
        ∷ [];
    free_list = 1 ∷ [];
    index = (42, 0) ∷ [];
  };
}

small_book-IsStorable : IsStorable 2 small_book
small_book-IsStorable = record {
  instrument = omega arith;
  word = omega arith;
  bids_room = omega arith;
  asks_room = omega arith;
  bids_whole = refl;
  asks_whole = refl;
  bids_fit = omega arith;
  asks_fit = tt;
  payload_fits = omega arith;
  payload_small = omega arith;
  free_fits = omega arith;
  free_small = omega arith;
  index_fits = omega arith;
  index_small = omega arith;
  ordered = (tt, tt);
}

from_snapshot_bytes-to_snapshot_bytes_example :
    (r : HotBook) × (from_snapshot_bytes 2 (to_snapshot_bytes 2 small_book) ≡ inr r)
    × Same 2 r small_book
from_snapshot_bytes-to_snapshot_bytes_example =
    from_snapshot_bytes-to_snapshot_bytes 2 small_book small_book-IsStorable

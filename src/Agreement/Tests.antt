-- ===== src/Agreement/Tests.antt =====
-- The agreement at a concrete stream: two bids and an ask, a partial cancel, a modification, a full
-- fill.
use flowlab.Prelude.{
  pop, ℕ, ◌≡◌, refl, List, [], ◌∷◌, All, length, arith, reverse, add_u64, add_u32, map, some, inr,
  to_be_bytes, to_le_bytes,
}
use flowlab.Event.{Event, bid, ask, event_type_from_u8, side_from_u8}
use flowlab.Map
use flowlab.Hash.{Xxh3}
use flowlab.Hot.Grid.{
  add_level, cancel_level, full_fill_level, find_level, open_slot, release_order, remove_level,
  deduct_qty,
}
use flowlab.Hot.Slab as OrderSlab
use flowlab.Ladder.Position.{position}
use flowlab.Hot.Book as Hot
use flowlab.Hot.Book.Reads.{bid_levels, ask_levels, order_meta, canonical_l2_hash}
use flowlab.Reference
use flowlab.Reference.Reads
use flowlab.Agreement.Relation.{meta_of}
use flowlab.Agreement.Room.{IsRegular, StaysWithin}
use flowlab.Agreement.Theorem.{books_agree}
use flowlab.Agreement.L2.{hashes_agree}
use flowlab.Agreement.Feed.{IsNamed, parse_buffer-books_agree}
use flowlab.Itch.{parse_buffer}
use flowlab.Itch.Emit.{emit_add_order, emit_order_delete}
use flowlab.Itch.Fields.{Command, add, delete, event_of}
use flowlab.Itch.Ranges.{IsByte}
use flowlab.Itch.Buffer.{emit, emit_all, parse_buffer-emit_all}

abbrev event : ℕ → ℕ → ℕ → ℕ → ℕ → Event
event event_type order_id side price qty = record {
  ts = 0;
  price = price;
  qty = qty;
  order_id = order_id;
  instrument_id = 1;
  event_type = event_type;
  side = side;
  pad = 0;
}

abbrev stream : List Event
stream =
    event 1 7 0 100 5
    ∷ event 1 8 0 101 4
    ∷ event 1 9 1 103 6
    ∷ event 2 7 0 0 2
    ∷ event 3 8 0 99 3
    ∷ event 4 9 0 0 6
    ∷ []

stream-IsRegular : All IsRegular stream
stream-IsRegular = omega arith

stream_fits : StaysWithin 4 (Reference.new 1) stream
unfolding Reference.apply Reference.apply_type Reference.new Reference.add_order
    Reference.add_on_side Reference.join_level Reference.cancel_order Reference.cancel_found
    Reference.modify_order Reference.execute_trade Reference.trade_found Reference.deduct_level
    Reference.deduct_found Map.get Map.insert Map.remove event_type_from_u8 side_from_u8 add_u32
stream_fits = omega arith

abbrev toy_hash : Xxh3
toy_hash = record { xxh3 = length; with_seed = λ bytes seed. length bytes }

books_agree_example :
    let h = Hot.run 4 (Hot.new 4 1) stream in
    let r = Reference.run (Reference.new 1) stream in
    (bid_levels h ≡ reverse (Map.values r.bids))
    × (ask_levels h ≡ Map.values r.asks)
    × ((k : ℕ) → order_meta h k ≡ meta_of (Map.get k r.orders))
books_agree_example =
    books_agree 4 1 stream (omega arith) stream-IsRegular stream_fits (omega arith)

hashes_agree_example :
    canonical_l2_hash toy_hash (Hot.run 4 (Hot.new 4 1) stream)
    ≡ Reads.canonical_l2_hash toy_hash (Reference.run (Reference.new 1) stream)
hashes_agree_example =
    hashes_agree toy_hash 4 1 stream (omega arith) stream-IsRegular stream_fits (omega arith)

-- The ladder that the stream leaves. The modification takes 3 of the 4 that rest at 101 and enters
-- a new order at 99: one share stays at 101.
final_ladder :
    let h = Hot.run 4 (Hot.new 4 1) stream in
    (bid_levels h
      ≡ record { price = 101; total_qty = 1; order_count = 1 }
        ∷ record { price = 100; total_qty = 3; order_count = 1 }
        ∷ record { price = 99; total_qty = 3; order_count = 1 }
        ∷ [])
    × (ask_levels h ≡ [])
unfolding Hot.run Hot.new Hot.apply Hot.apply_type Hot.add_order Hot.cancel_order Hot.cancel_known
    Hot.cancel_resolved Hot.trade Hot.trade_known Hot.trade_full_fill add_level cancel_level
    full_fill_level find_level open_slot release_order remove_level deduct_qty position
    OrderSlab.insert OrderSlab.get OrderSlab.set_meta OrderSlab.remove pop Map.get Map.insert
    Map.remove event_type_from_u8 add_u64 add_u32
final_ladder = (refl, refl)

-- A feed of three messages.
abbrev feed : List Command
feed = add 1000 7 bid 300 1000000 ∷ add 2000 8 ask 500 1000100 ∷ delete 3000 7 ∷ []

feed_bytes : All IsByte (emit_all [] feed)
unfolding emit_all emit emit_add_order emit_order_delete to_be_bytes to_le_bytes
feed_bytes = omega arith

feed_parsed : parse_buffer (emit_all [] feed) [] ≡ some (inr 3, map event_of feed)
feed_parsed = parse_buffer-emit_all feed [] (omega arith)

feed-IsNamed : All IsNamed (map event_of feed)
feed-IsNamed = omega arith

feed_fits : StaysWithin 4 (Reference.new 1) (map event_of feed)
unfolding Reference.apply Reference.apply_type Reference.new Reference.add_order
    Reference.add_on_side Reference.join_level Reference.cancel_order Reference.cancel_found
    Reference.deduct_level Reference.deduct_found Map.get Map.insert Map.remove event_type_from_u8
    side_from_u8 add_u32
feed_fits = omega arith

parse_buffer-books_agree_example :
    let h = Hot.run 4 (Hot.new 4 1) (map event_of feed) in
    let r = Reference.run (Reference.new 1) (map event_of feed) in
    (bid_levels h ≡ reverse (Map.values r.bids))
    × (ask_levels h ≡ Map.values r.asks)
    × ((k : ℕ) → order_meta h k ≡ meta_of (Map.get k r.orders))
parse_buffer-books_agree_example =
    parse_buffer-books_agree 4 1 (emit_all [] feed) (inr 3) (map event_of feed) (omega arith)
      feed_bytes feed_parsed feed-IsNamed feed_fits (omega arith)

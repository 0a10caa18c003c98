-- ===== src/Hot/Snapshot.antt =====
-- The snapshot bytes of the hot book, `to_snapshot_bytes` and `from_snapshot_bytes` of
-- core/src/hot_book.rs. What is left to read, `buf[p..]`, stands for the buffer and the offset `p`.
pub mod Codec
pub mod RoundTrip
mod Tests
use flowlab.Prelude.{
  ℕ, zero, suc, ◌+◌, ◌*◌, ◌%◌, max, List, [], ◌∷◌, ◌++◌, foldl, ◌||◌, not, ltb, ◌==◌, if◌then◌else◌,
  get_or, length, take, drop, slice, replicate, to_le_bytes, from_le_bytes, u32_mod, ◌⊎◌, inl, inr,
}
use flowlab.Map
use flowlab.Map.{Map}
use flowlab.Ladder.{Level}
use flowlab.Hot.Grid.{Grid, live, default_level}
use flowlab.Hot.Slab.{OrderMeta, OrderSlab}
use flowlab.Hot.Book.{HotBook}

pub data BookSnapshotError : Type 0 where
  truncated : ℕ → BookSnapshotError
  levels_mismatch : (got expected : ℕ) → BookSnapshotError
  count_exceeds_max : (got max : ℕ) → BookSnapshotError
  bad_length : (declared actual : ℕ) → BookSnapshotError

abbrev pub snapshot_header_len : ℕ
snapshot_header_len = 16

unfoldable pub write_level : Level → List ℕ
write_level l =
    to_le_bytes 8 l.price
    ++ (to_le_bytes 8 l.total_qty ++ (to_le_bytes 4 l.order_count ++ replicate 4 0))

unfoldable pub read_level : List ℕ → Level
read_level buf = record {
  price = from_le_bytes (slice buf 0 8);
  total_qty = from_le_bytes (slice buf 8 16);
  order_count = from_le_bytes (slice buf 16 20);
}

unfoldable pub write_meta : OrderMeta → List ℕ
write_meta m =
    to_le_bytes 8 m.price ++ (to_le_bytes 8 m.qty ++ (to_le_bytes 1 m.side ++ replicate 7 0))

unfoldable pub read_meta : List ℕ → OrderMeta
read_meta buf = record {
  price = from_le_bytes (slice buf 0 8);
  qty = from_le_bytes (slice buf 8 16);
  side = from_le_bytes (slice buf 16 17);
}

unfoldable pub write_slot : ℕ → List ℕ
write_slot s = to_le_bytes 4 s

unfoldable pub read_slot : List ℕ → ℕ
read_slot buf = from_le_bytes (slice buf 0 4)

unfoldable pub write_entry : ℕ × ℕ → List ℕ
write_entry (oid, slot) = to_le_bytes 8 oid ++ to_le_bytes 4 slot

unfoldable pub read_entry : List ℕ → ℕ × ℕ
read_entry buf = (from_le_bytes (slice buf 0 8), from_le_bytes (slice buf 8 12))

module _ {A : Type 0} where
  -- one record after the other
  unfoldable pub write_all : (A → List ℕ) → List A → List ℕ
  write_all write [] = []
  write_all write (x ∷ xs) = write x ++ write_all write xs

  -- a vector behind its length
  unfoldable pub write_counted : (A → List ℕ) → List A → List ℕ
  write_counted write xs = to_le_bytes 4 (length xs % u32_mod) ++ write_all write xs

  -- `n` records of `size` bytes, and what is left
  unfoldable pub read_all : (List ℕ → A) → ℕ → ℕ → List ℕ → List A × List ℕ
  read_all read size zero rest = ([], rest)
  read_all read size (suc n) rest =
      let (xs, left) = read_all read size n (drop size rest) in (read (take size rest) ∷ xs, left)

  -- `total` is the length of the whole buffer
  unfoldable pub read_counted :
      ℕ → (List ℕ → A) → ℕ → List ℕ → BookSnapshotError ⊎ (List A × List ℕ)
  read_counted total read size rest =
      let n = from_le_bytes (take 4 rest) in
      let behind = drop 4 rest in
      if ltb (length rest) 4
      then inl (BookSnapshotError.truncated total)
      else if ltb (length behind) (n * size)
      then inl (BookSnapshotError.bad_length (n * size) (length behind))
      else inr (read_all read size n behind)

-- The index is kept in the order of its keys.
unfoldable pub to_snapshot_bytes : ℕ → HotBook → List ℕ
to_snapshot_bytes max_levels b =
    to_le_bytes 4 b.instrument_id
    ++ (to_le_bytes 4 b.bids.count
        ++ (to_le_bytes 4 b.asks.count
            ++ (to_le_bytes 4 (max_levels % u32_mod)
                ++ (write_all write_level (live b.bids)
                    ++ (write_all write_level (live b.asks)
                        ++ (write_counted write_meta b.orders.payload
                            ++ (write_counted write_slot b.orders.free_list
                                ++ write_counted write_entry b.orders.index)))))))

-- the levels read, from the first place on
abbrev pub fill : List Level → List Level → List Level
fill levels [] = levels
fill [] (x ∷ xs) = []
fill (l ∷ levels) (x ∷ xs) = x ∷ fill levels xs

abbrev pub restored_grid : ℕ → ℕ → List Level → Grid
restored_grid max_levels count xs = record {
  levels = fill (replicate max_levels default_level) xs;
  count = count;
}

abbrev pub insert_entry : Map ℕ → ℕ × ℕ → Map ℕ
insert_entry index (oid, slot) = Map.insert oid slot index

-- The vectors of the slab, each read behind the one before.
abbrev pub with_index :
    List OrderMeta
    → List ℕ
    → BookSnapshotError ⊎ (List (ℕ × ℕ) × List ℕ)
    → BookSnapshotError ⊎ OrderSlab
with_index payload free_list (inl e) = inl e
with_index payload free_list (inr (index, rest)) =
    inr (record { payload = payload; free_list = free_list; index = foldl insert_entry [] index })

abbrev pub with_free_list :
    ℕ → List OrderMeta → BookSnapshotError ⊎ (List ℕ × List ℕ) → BookSnapshotError ⊎ OrderSlab
with_free_list total payload (inl e) = inl e
with_free_list total payload (inr (free_list, rest)) =
    with_index payload free_list (read_counted total read_entry 12 rest)

abbrev pub with_payload :
    ℕ → BookSnapshotError ⊎ (List OrderMeta × List ℕ) → BookSnapshotError ⊎ OrderSlab
with_payload total (inl e) = inl e
with_payload total (inr (payload, rest)) =
    with_free_list total payload (read_counted total read_slot 4 rest)

unfoldable pub read_slab : ℕ → List ℕ → BookSnapshotError ⊎ OrderSlab
read_slab total rest = with_payload total (read_counted total read_meta 24 rest)

-- The header of the book, and the levels and the slab read behind it.
pub record BookHeader : Type 0 where
  pub instrument_id : ℕ
  pub bid_count : ℕ
  pub ask_count : ℕ

abbrev pub with_slab :
    ℕ
    → BookHeader
    → List Level
    → List Level
    → BookSnapshotError ⊎ OrderSlab
    → BookSnapshotError ⊎ HotBook
with_slab max_levels h bids asks (inl e) = inl e
with_slab max_levels h bids asks (inr orders) = inr (record {
  instrument_id = h.instrument_id;
  bids = restored_grid max_levels h.bid_count bids;
  asks = restored_grid max_levels h.ask_count asks;
  orders = orders;
})

abbrev pub with_asks :
    ℕ → ℕ → BookHeader → List Level → List Level × List ℕ → BookSnapshotError ⊎ HotBook
with_asks max_levels total h bids (asks, rest) =
    with_slab max_levels h bids asks (read_slab total rest)

abbrev pub with_bids : ℕ → ℕ → BookHeader → List Level × List ℕ → BookSnapshotError ⊎ HotBook
with_bids max_levels total h (bids, rest) =
    with_asks max_levels total h bids (read_all read_level 24 h.ask_count rest)

unfoldable pub read_body : ℕ → ℕ → BookHeader → List ℕ → BookSnapshotError ⊎ HotBook
read_body max_levels total h rest =
    let want = (h.bid_count + h.ask_count) * 24 in
    if ltb (length rest) want
    then inl (BookSnapshotError.bad_length want (length rest))
    else with_bids max_levels total h (read_all read_level 24 h.bid_count rest)

unfoldable pub from_snapshot_bytes : ℕ → List ℕ → BookSnapshotError ⊎ HotBook
from_snapshot_bytes max_levels buf =
    let bid_count = from_le_bytes (slice buf 4 8) in
    let ask_count = from_le_bytes (slice buf 8 12) in
    let declared_max = from_le_bytes (slice buf 12 16) in
    let expected = max_levels % u32_mod in
    if ltb (length buf) snapshot_header_len
    then inl (BookSnapshotError.truncated (length buf))
    else if not (declared_max == expected)
    then inl (BookSnapshotError.levels_mismatch declared_max expected)
    else if ltb expected bid_count || ltb expected ask_count
    then inl (BookSnapshotError.count_exceeds_max (max bid_count ask_count) expected)
    else read_body max_levels (length buf)
        (record {
          instrument_id = from_le_bytes (slice buf 0 4);
          bid_count = bid_count;
          ask_count = ask_count;
        })
        (drop snapshot_header_len buf)

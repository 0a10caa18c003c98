-- ===== src/Hot/Snapshot/RoundTrip.antt =====
-- The hot book of core/src/hot_book.rs comes back from its snapshot.
use flowlab.Prelude.{
  ℕ, ◌+◌, ◌*◌, ◌%◌, ◌≤◌, ◌<◌, false, ◌≡◌, refl, ◌∙◌, ap, ap₂, sym, List, [], ◌∷◌, ◌++◌, append-nil,
  append_assoc, foldl, length, length-append, length-take, length-replicate, replicate, take, All,
  All-map, All-push, push, ltb, ◌==◌, ==_self, to_le_bytes, from_le_bytes,
  from_le_bytes-to_le_bytes, u32_mod, arith, inr,
}
use flowlab.Map
use flowlab.Map.{Map, IsOrdered}
use flowlab.Ladder.{Level}
use flowlab.Hot.Grid.{live, default_level}
use flowlab.Hot.Book.{HotBook}
use flowlab.Hot.Snapshot.{
  write_level, read_level, write_meta, read_meta, write_slot, read_slot, write_entry, read_entry,
  write_all, write_counted, read_all, read_counted, to_snapshot_bytes, from_snapshot_bytes, fill,
  restored_grid, insert_entry, with_index, with_free_list, with_payload, with_slab, with_asks,
  with_bids, BookHeader, read_slab, read_body, snapshot_header_len,
}
use flowlab.Hot.Snapshot.Codec.{
  Coded, read_all-write_all, read_counted-write_counted, length-write_all, LevelFits, MetaFits,
  EntryFits, level-Coded, meta-Coded, slot-Coded, entry-Coded,
}

-- A book whose words fit, of at most `max_levels` levels on a side.
pub record IsStorable (max_levels : ℕ) (b : HotBook) : Type 0 where
  pub instrument : b.instrument_id < u32_mod
  pub word : max_levels < u32_mod
  pub bids_room : b.bids.count ≤ max_levels
  pub asks_room : b.asks.count ≤ max_levels
  pub bids_whole : length b.bids.levels ≡ max_levels
  pub asks_whole : length b.asks.levels ≡ max_levels
  pub bids_fit : All LevelFits (live b.bids)
  pub asks_fit : All LevelFits (live b.asks)
  pub payload_fits : All MetaFits b.orders.payload
  pub payload_small : length b.orders.payload < u32_mod
  pub free_fits : All (λ s. s < u32_mod) b.orders.free_list
  pub free_small : length b.orders.free_list < u32_mod
  pub index_fits : All EntryFits b.orders.index
  pub index_small : length b.orders.index < u32_mod
  pub ordered : IsOrdered b.orders.index

-- An entry of a larger key than all goes to the end.
insert_last :
    (k v : ℕ) (m : Map ℕ) → All (λ (e : ℕ × ℕ). e.0 < k) m → Map.insert k v m ≡ push m (k, v)
unfolding Map.insert
insert_last k v [] h = refl
insert_last k v ((j, w) ∷ m) (h, hs) =
    let after : ltb k j ≡ false = ground (arith, h) in
    let other : (j == k) ≡ false = ground (arith, h) in
    rw (after, other) (ap (λ l. (j, w) ∷ l) (insert_last k v m hs))

insert_all :
    (m done : Map ℕ)
    → IsOrdered m
    → All (λ (e : ℕ × ℕ). All (λ (f : ℕ × ℕ). f.0 < e.0) done) m
    → foldl insert_entry done m ≡ done ++ m
insert_all [] done o h = sym (append-nil done)
insert_all ((k, v) ∷ m) done (above, o) (h, hs) =
    ap (λ d. foldl insert_entry d m) (insert_last k v done h)
    ∙ insert_all m (push done (k, v)) o (later m above hs)
    ∙ append_assoc done ((k, v) ∷ []) m
  where
    later :
        (m : Map ℕ)
        → All (λ (e : ℕ × ℕ). k < e.0) m
        → All (λ (e : ℕ × ℕ). All (λ (f : ℕ × ℕ). f.0 < e.0) done) m
        → All (λ (e : ℕ × ℕ). All (λ (f : ℕ × ℕ). f.0 < e.0) (push done (k, v))) m
    later [] a b = tt
    later (e ∷ m) (a, as1) (b, bs) =
        (All-push (λ (f : ℕ × ℕ). f.0 < e.0) done (k, v) b a, later m as1 bs)

from_empty : (m : Map ℕ) → IsOrdered m → foldl insert_entry [] m ≡ m
from_empty m o = insert_all m [] o (nothing m)
  where
    nothing : (m : Map ℕ) → All {0, 0} (λ (e : ℕ × ℕ). Unit) m
    nothing [] = tt
    nothing (e ∷ m) = (tt, nothing m)

-- The levels that are filled in are those of the array.
take-fill :
    (levels xs : List Level) → length xs ≤ length levels → take (length xs) (fill levels xs) ≡ xs
take-fill [] [] h = refl
take-fill (l ∷ levels) [] h = refl
take-fill [] (x ∷ xs) h = absurd (omega arith)
take-fill (l ∷ levels) (x ∷ xs) h = ap (λ r. x ∷ r) (take-fill levels xs (omega arith))

module _ (max_levels : ℕ) (b : HotBook) (s : IsStorable max_levels b) where
  abbrev slab_bytes : List ℕ
  slab_bytes =
      write_counted write_meta b.orders.payload
      ++ (write_counted write_slot b.orders.free_list ++ write_counted write_entry b.orders.index)

  read_slab-write : (total : ℕ) → read_slab total slab_bytes ≡ inr b.orders
  unfolding read_slab
  read_slab-write total =
      let free = write_counted write_slot b.orders.free_list in
      let index = write_counted write_entry b.orders.index in
      let first =
        read_counted-write_counted write_meta read_meta 24 total b.orders.payload (free ++ index)
          (All-map MetaFits (Coded write_meta read_meta 24) b.orders.payload meta-Coded
            s.payload_fits)
          s.payload_small in
      let second =
        read_counted-write_counted write_slot read_slot 4 total b.orders.free_list index
          (All-map (λ x. x < u32_mod) (Coded write_slot read_slot 4) b.orders.free_list slot-Coded
            s.free_fits)
          s.free_small in
      let third =
        ap (read_counted total read_entry 12) (sym (append-nil index))
        ∙ read_counted-write_counted write_entry read_entry 12 total b.orders.index []
            (All-map EntryFits (Coded write_entry read_entry 12) b.orders.index entry-Coded
              s.index_fits)
            s.index_small in
      ap (with_payload total) first
      ∙ ap (with_free_list total b.orders.payload) second
      ∙ ap (with_index b.orders.payload b.orders.free_list) third
      ∙ ap
          (λ m.
            inr (record { payload = b.orders.payload; free_list = b.orders.free_list; index = m }))
          (from_empty b.orders.index s.ordered)

  -- the book that comes back
  restored : HotBook
  restored = record {
    instrument_id = b.instrument_id;
    bids = restored_grid max_levels b.bids.count (live b.bids);
    asks = restored_grid max_levels b.asks.count (live b.asks);
    orders = b.orders;
  }

  abbrev book_header : BookHeader
  book_header = record {
    instrument_id = b.instrument_id;
    bid_count = b.bids.count;
    ask_count = b.asks.count;
  }

  abbrev body_bytes : List ℕ
  body_bytes =
      write_all write_level (live b.bids) ++ (write_all write_level (live b.asks) ++ slab_bytes)

  length-bids : length (live b.bids) ≡ b.bids.count
  length-bids =
      let whole = s.bids_whole in
      let room = s.bids_room in omega (arith, length-take b.bids.count b.bids.levels, whole, room)

  length-asks : length (live b.asks) ≡ b.asks.count
  length-asks =
      let whole = s.asks_whole in
      let room = s.asks_room in omega (arith, length-take b.asks.count b.asks.levels, whole, room)

  read_body-write : (total : ℕ) → read_body max_levels total book_header body_bytes ≡ inr restored
  unfolding read_body restored
  read_body-write total =
      let bids_coded =
        All-map LevelFits (Coded write_level read_level 24) (live b.bids) level-Coded s.bids_fit in
      let asks_coded =
        All-map LevelFits (Coded write_level read_level 24) (live b.asks) level-Coded s.asks_fit in
      let bid_bytes = write_all write_level (live b.bids) in
      let ask_bytes = write_all write_level (live b.asks) in
      let first : read_all read_level 24 b.bids.count body_bytes
          ≡ (live b.bids, ask_bytes ++ slab_bytes) =
        ap (λ n. read_all read_level 24 n body_bytes) (sym length-bids)
        ∙ read_all-write_all write_level read_level 24 (live b.bids) (ask_bytes ++ slab_bytes)
            bids_coded in
      let second : read_all read_level 24 b.asks.count (ask_bytes ++ slab_bytes)
          ≡ (live b.asks, slab_bytes) =
        ap (λ n. read_all read_level 24 n (ask_bytes ++ slab_bytes)) (sym length-asks)
        ∙ read_all-write_all write_level read_level 24 (live b.asks) slab_bytes asks_coded in
      let room : ltb (length body_bytes) ((b.bids.count + b.asks.count) * 24) ≡ false = ground (
        arith,
        length-append bid_bytes (ask_bytes ++ slab_bytes),
        length-append ask_bytes slab_bytes,
        length-write_all write_level read_level 24 (live b.bids) bids_coded,
        length-write_all write_level read_level 24 (live b.asks) asks_coded,
        length-bids,
        length-asks,
      ) in
      rw room (
        ap (with_bids max_levels total book_header) first
        ∙ ap (with_asks max_levels total book_header (live b.bids)) second
        ∙ ap (with_slab max_levels book_header (live b.bids) (live b.asks)) (read_slab-write total))

  -- the header as it is written
  abbrev header_bytes : List ℕ
  header_bytes =
      to_le_bytes 4 b.instrument_id
      ++ (to_le_bytes 4 b.bids.count
          ++ (to_le_bytes 4 b.asks.count ++ to_le_bytes 4 (max_levels % u32_mod)))

  from_snapshot_bytes-header :
      from_snapshot_bytes max_levels (header_bytes ++ body_bytes) ≡ inr restored
  unfolding from_snapshot_bytes to_le_bytes
  from_snapshot_bytes-header =
      let instrument = s.instrument in
      let word = s.word in
      let bids_room = s.bids_room in
      let asks_room = s.asks_room in
      let whole : ltb (length (header_bytes ++ body_bytes)) snapshot_header_len ≡ false =
        ground arith in
      let declared : from_le_bytes (to_le_bytes 4 (max_levels % u32_mod)) ≡ max_levels % u32_mod =
        from_le_bytes-to_le_bytes 4 (max_levels % u32_mod) (omega arith) in
      let bids_fit : ltb (max_levels % u32_mod) b.bids.count ≡ false =
        ground (arith, word, bids_room) in
      let asks_fit : ltb (max_levels % u32_mod) b.asks.count ≡ false =
        ground (arith, word, asks_room) in
      rw
        (
          whole,
          declared,
          ==_self (max_levels % u32_mod),
          from_le_bytes-to_le_bytes 4 b.bids.count (omega (arith, word, bids_room)),
          from_le_bytes-to_le_bytes 4 b.asks.count (omega (arith, word, asks_room)),
          from_le_bytes-to_le_bytes 4 b.instrument_id instrument,
          bids_fit,
          asks_fit,
        )
        (read_body-write (length (header_bytes ++ body_bytes)))

  restored_bids : live (restored_grid max_levels b.bids.count (live b.bids)) ≡ live b.bids
  restored_bids =
      let room = s.bids_room in
      ap (λ n. take n (fill (replicate max_levels default_level) (live b.bids))) (sym length-bids)
      ∙ take-fill (replicate max_levels default_level) (live b.bids)
          (omega (arith, length-bids, room, length-replicate max_levels default_level))

  restored_asks : live (restored_grid max_levels b.asks.count (live b.asks)) ≡ live b.asks
  restored_asks =
      let room = s.asks_room in
      ap (λ n. take n (fill (replicate max_levels default_level) (live b.asks))) (sym length-asks)
      ∙ take-fill (replicate max_levels default_level) (live b.asks)
          (omega (arith, length-asks, room, length-replicate max_levels default_level))

-- What two books share that show the same.
pub record Same (max_levels : ℕ) (r b : HotBook) : Type 0 where
  pub instrument : r.instrument_id ≡ b.instrument_id
  pub bids : live r.bids ≡ live b.bids
  pub asks : live r.asks ≡ live b.asks
  pub orders : r.orders ≡ b.orders
  pub snapshot : to_snapshot_bytes max_levels r ≡ to_snapshot_bytes max_levels b

-- A book whose words fit, whose index is in the order of its keys and whose sides have at most
-- `max_levels` levels comes back from its snapshot: the book read has the same instrument, levels in
-- use, orders, slots and index, and its own snapshot is the same, byte by byte.
pub from_snapshot_bytes-to_snapshot_bytes :
    (max_levels : ℕ) (b : HotBook)
    → IsStorable max_levels b
    → (r : HotBook) × (from_snapshot_bytes max_levels (to_snapshot_bytes max_levels b) ≡ inr r)
      × Same max_levels r b
unfolding to_snapshot_bytes to_le_bytes restored
from_snapshot_bytes-to_snapshot_bytes max_levels b s =
    let bids = restored_bids max_levels b s in
    let asks = restored_asks max_levels b s in
    let header = header_bytes max_levels b s in
    (
      restored max_levels b s,
      from_snapshot_bytes-header max_levels b s,
      record {
        instrument = refl;
        bids = bids;
        asks = asks;
        orders = refl;
        snapshot =
            ap₂
              (λ (xs ys : List Level).
                header
                ++ (write_all write_level xs
                    ++ (write_all write_level ys ++ slab_bytes max_levels b s)))
              bids asks;
      },
    )

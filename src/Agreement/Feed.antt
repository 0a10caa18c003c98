-- ===== src/Agreement/Feed.antt =====
-- A feed of ITCH messages (replay/src/itch.rs) in the two books (core/src/hot_book.rs and
-- core/src/orderbook.rs).
use flowlab.Prelude.{
  ℕ, ◌≤◌, ◌<◌, ◌≡◌, ◌≢◌, subst, List, [], ◌∷◌, some, reverse, length, All, u32_mod, arith, ◌⊎◌,
}
use flowlab.Event.{Event}
use flowlab.Map
use flowlab.Hot.Book as Hot
use flowlab.Hot.Book.Reads.{bid_levels, ask_levels, order_meta}
use flowlab.Reference
use flowlab.Itch.{BufferError, parse_buffer}
use flowlab.Itch.Ranges.{IsByte, InRange, Written, parse_buffer-InRange}
use flowlab.Agreement.Relation.{meta_of}
use flowlab.Agreement.Room.{IsRegular, StaysWithin}
use flowlab.Agreement.Theorem.{books_agree}

-- an event that names an order
abbrev pub IsNamed : Event → Type 0
IsNamed e = e.order_id ≢ 0

InRange-IsRegular : (es : List Event) → All InRange es → All IsNamed es → All IsRegular es
InRange-IsRegular [] r n = tt
InRange-IsRegular (e ∷ es) (r, rs) (n, ns) =
    let q = r.quantity in
    (record { named = n; sided = r.sided; word = omega (arith, q) }, InRange-IsRegular es rs ns)

-- Both books, started empty with `max_levels` below 2 ^ 32 and given the events that `parse_buffer`
-- reads from a buffer of bytes, show the same ladder of levels on each side and keep the same order
-- under each order id, also when the parse stopped with an error: as long as no message has the order
-- number 0, the reference book never holds more than `max_levels` prices on a side, and there are at
-- most 2 ^ 32 events.
pub parse_buffer-books_agree :
    (max_levels id : ℕ) (raw : List ℕ) (result : BufferError ⊎ ℕ) (events : List Event)
    → max_levels < u32_mod
    → All IsByte raw
    → parse_buffer raw [] ≡ some (result, events)
    → All IsNamed events
    → StaysWithin max_levels (Reference.new id) events
    → length events ≤ u32_mod
    → let h = Hot.run max_levels (Hot.new max_levels id) events in
      let r = Reference.run (Reference.new id) events in
      (bid_levels h ≡ reverse (Map.values r.bids))
      × (ask_levels h ≡ Map.values r.asks)
      × ((k : ℕ) → order_meta h k ≡ meta_of (Map.get k r.orders))
parse_buffer-books_agree max_levels id raw result events small bytes parsed named within few =
    let ranges : All InRange events =
      subst (Written (All InRange)) parsed (parse_buffer-InRange raw [] bytes tt) in
    books_agree max_levels id events small (InRange-IsRegular events ranges named) within few

-- ===== src/Itch.antt =====
-- The ITCH 5.0 parser of replay/src/itch.rs. Reading a byte past the end of a message panics in the
-- code; here it gives the byte `outside`, and Itch/Bounds.antt is about it.
pub mod Emit
pub mod Fields
pub mod Bounds
pub mod Ranges
pub mod Synthetic
pub mod Buffer
mod Tests
use flowlab.Prelude.{
  ℕ, zero, suc, ◌+◌, ◌*◌, ◌^◌, Bool, Option, none, some, List, [], ◌∷◌, ltb, leb, ◌==◌, ◌||◌, ◌&&◌,
  if◌then◌else◌, length, take, drop, get_or, from_be_bytes, push, ◌⊎◌, inl, inr,
}
use flowlab.Event.{Event}

-- 0 for a type that is not known
unfoldable pub msg_length : ℕ → ℕ
msg_length t =
    if t == b'S' || t == b'W'
    then 12
    else if t == b'R'
    then 39
    else if t == b'H'
    then 25
    else if t == b'Y' || t == b'N'
    then 20
    else if t == b'L'
    then 26
    else if t == b'V' || t == b'J' || t == b'U'
    then 35
    else if t == b'K'
    then 28
    else if t == b'h'
    then 21
    else if t == b'A' || t == b'C'
    then 36
    else if t == b'F' || t == b'Q'
    then 40
    else if t == b'E'
    then 31
    else if t == b'X'
    then 23
    else if t == b'D' || t == b'B'
    then 19
    else if t == b'P'
    then 44
    else if t == b'I'
    then 50
    else 0

abbrev pub event_zeroed : Event
event_zeroed = record {
  ts = 0;
  price = 0;
  qty = 0;
  order_id = 0;
  instrument_id = 0;
  event_type = 0;
  side = 0;
  pad = 0;
}

-- `Side::Bid` for a buy
abbrev pub side_of : ℕ → ℕ
side_of b = if b == b'B' then 0 else 1

module _ (outside : ℕ) where
  abbrev pub byte : List ℕ → ℕ → ℕ
  byte b off = get_or b off outside

  unfoldable pub rd_u16 : List ℕ → ℕ → ℕ
  rd_u16 b off = from_be_bytes (byte b off ∷ byte b (off + 1) ∷ [])

  unfoldable pub rd_u32 : List ℕ → ℕ → ℕ
  rd_u32 b off =
      from_be_bytes (byte b off ∷ byte b (off + 1) ∷ byte b (off + 2) ∷ byte b (off + 3) ∷ [])

  unfoldable pub rd_u64 : List ℕ → ℕ → ℕ
  rd_u64 b off = from_be_bytes (
      byte b off
      ∷ byte b (off + 1)
      ∷ byte b (off + 2)
      ∷ byte b (off + 3)
      ∷ byte b (off + 4)
      ∷ byte b (off + 5)
      ∷ byte b (off + 6)
      ∷ byte b (off + 7)
      ∷ [])

  -- `(hi << 32) | lo`, of disjoint bits
  unfoldable pub rd_ts48 : List ℕ → ℕ → ℕ
  rd_ts48 b off = rd_u16 b off * 2 ^ 32 + rd_u32 b (off + 2)

  -- The time, the order and the instrument, which every message has at one place.
  abbrev pub common : List ℕ → Event
  common m = record event_zeroed {
    ts = rd_ts48 m 5;
    order_id = rd_u64 m 11;
    instrument_id = rd_u16 m 1;
  }

  unfoldable pub parse_add_order : List ℕ → Option Event
  parse_add_order m =
      if ltb (length m) 36
      then none
      else some (record (common m) {
        price = rd_u32 m 32;
        qty = rd_u32 m 20;
        event_type = 0x01;
        side = side_of (byte m 19);
      })

  unfoldable pub parse_order_delete : List ℕ → Option Event
  parse_order_delete m =
      if ltb (length m) 19 then none else some (record (common m) { event_type = 0x02 })

  unfoldable pub parse_order_cancel : List ℕ → Option Event
  parse_order_cancel m =
      if ltb (length m) 23
      then none
      else some (record (common m) { qty = rd_u32 m 19; event_type = 0x02 })

  unfoldable pub parse_order_executed : List ℕ → Option Event
  parse_order_executed m =
      if ltb (length m) 31
      then none
      else some (record (common m) {
        price = if byte m 0 == b'C' && leb 36 (length m) then rd_u32 m 32 else 0;
        qty = rd_u32 m 19;
        event_type = 0x04;
      })

  unfoldable pub parse_trade : List ℕ → Option Event
  parse_trade m =
      if ltb (length m) 44
      then none
      else some (record (common m) {
        price = rd_u32 m 32;
        qty = rd_u32 m 20;
        event_type = 0x04;
        side = side_of (byte m 19);
      })

  -- `dispatch` on a message whose first byte is `t`
  unfoldable pub dispatch_type : ℕ → List ℕ → Option Event
  dispatch_type t m =
      if t == b'A' || t == b'F'
      then parse_add_order m
      else if t == b'D'
      then parse_order_delete m
      else if t == b'X'
      then parse_order_cancel m
      else if t == b'E' || t == b'C'
      then parse_order_executed m
      else if t == b'P'
      then parse_trade m
      else none

  unfoldable pub dispatch : List ℕ → Option Event
  dispatch [] = none
  dispatch (t ∷ m) = dispatch_type t (t ∷ m)

pub data BufferError : Type 0 where
  unknown_type truncated : BufferError

abbrev pub push_some : List Event → Option Event → List Event
push_some out none = out
push_some out (some e) = push out e

abbrev pub count_some : ℕ → Option Event → ℕ
count_some n none = n
count_some n (some e) = n + 1

-- The loop of `parse_buffer`, with fuel: `none` is a loop that has not ended. The events that were
-- written stay in `out` when it stops with an error.
unfoldable pub parse_from :
    ℕ → List ℕ → ℕ → List Event → ℕ → Option ((BufferError ⊎ ℕ) × List Event)
parse_from zero raw i out n = none
parse_from (suc fuel) raw i out n =
    let len = msg_length (get_or raw i 0) in
    let event = dispatch 0 (take len (drop i raw)) in
    let rest = parse_from fuel raw (i + len) (push_some out event) (count_some n event) in
    if leb (length raw) i
    then some (inr n, out)
    else if len == 0
    then some (inl BufferError.unknown_type, out)
    else if ltb (length raw) (i + len)
    then some (inl BufferError.truncated, out)
    else rest

-- Every message takes at least a byte, and one round more ends the loop.
unfoldable pub parse_buffer : List ℕ → List Event → Option ((BufferError ⊎ ℕ) × List Event)
unfolding parse_from
parse_buffer raw out = parse_from (suc (length raw)) raw 0 out 0

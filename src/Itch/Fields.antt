-- ===== src/Itch/Fields.antt =====
-- A message that an emitter writes is read back by `dispatch`, field by field.
use flowlab.Prelude.{
  ℕ, ◌+◌, ◌*◌, ◌/◌, ◌%◌, ◌^◌, ◌<◌, ◌≡◌, refl, ◌∙◌, ap₂, some, List, [], ◌++◌, length, to_be_bytes,
  to_le_bytes, from_be_bytes-to_be_bytes, u64_mod, u32_mod, arith,
}
use flowlab.Event.{Event, Side, bid, ask, side_to_u8}
use flowlab.Itch.{
  rd_u16, rd_u32, rd_u64, rd_ts48, byte, side_of, event_zeroed, parse_add_order, parse_order_delete,
  parse_trade, dispatch, dispatch_type, msg_length,
}
use flowlab.Itch.Emit.{emit_head, emit_order, side_letter}

-- what a stream of the emitters is made of
pub data Command : Type 0 where
  add : (ts order_id : ℕ) → Side → (shares price : ℕ) → Command
  delete : (ts order_id : ℕ) → Command
  trade : (ts order_id : ℕ) → Side → (shares price : ℕ) → Command

abbrev pub message : Command → List ℕ
message (add ts id s shares price) = emit_head b'A' ts id ++ emit_order s shares price
message (delete ts id) = emit_head b'D' ts id
message (trade ts id s shares price) =
    emit_head b'P' ts id ++ (emit_order s shares price ++ to_be_bytes 8 0)

abbrev pub event_of : Command → Event
event_of (add ts id s shares price) = record event_zeroed {
  ts = ts;
  order_id = id;
  event_type = 1;
  side = side_to_u8 s;
  qty = shares;
  price = price;
}
event_of (delete ts id) = record event_zeroed { ts = ts; order_id = id; event_type = 2 }
event_of (trade ts id s shares price) = record event_zeroed {
  ts = ts;
  order_id = id;
  event_type = 4;
  side = side_to_u8 s;
  qty = shares;
  price = price;
}

-- the time in 48 bits, the other fields in the words of their types
abbrev pub Fits : Command → Type 0
Fits (add ts id s shares price) =
    (ts < 2 ^ 48) × (id < u64_mod) × (shares < u32_mod) × (price < u32_mod)
Fits (delete ts id) = (ts < 2 ^ 48) × (id < u64_mod)
Fits (trade ts id s shares price) =
    (ts < 2 ^ 48) × (id < u64_mod) × (shares < u32_mod) × (price < u32_mod)

module _ (o t ts id : ℕ) (rest : List ℕ) where
  rd_u16-head : rd_u16 o (emit_head t ts id ++ rest) 1 ≡ 0
  unfolding rd_u16 to_be_bytes to_le_bytes
  rd_u16-head = from_be_bytes-to_be_bytes 2 0 (omega arith)

  rd_ts48-head : ts < 2 ^ 48 → rd_ts48 o (emit_head t ts id ++ rest) 5 ≡ ts
  unfolding rd_ts48 rd_u16 rd_u32 to_be_bytes to_le_bytes
  rd_ts48-head h =
      ap₂ (λ hi lo. hi * 2 ^ 32 + lo)
        (from_be_bytes-to_be_bytes 2 (ts / 2 ^ 32 % 2 ^ 16) (omega arith))
        (from_be_bytes-to_be_bytes 4 (ts % 2 ^ 32) (omega arith))
      ∙ omega arith

  rd_u64-head : id < u64_mod → rd_u64 o (emit_head t ts id ++ rest) 11 ≡ id
  unfolding rd_u64 to_be_bytes to_le_bytes
  rd_u64-head h = from_be_bytes-to_be_bytes 8 id h

module _ (o t ts id : ℕ) (s : Side) (shares price : ℕ) (rest : List ℕ) where
  abbrev order_message : List ℕ
  order_message = emit_head t ts id ++ (emit_order s shares price ++ rest)

  rd_u32-shares : shares < u32_mod → rd_u32 o order_message 20 ≡ shares
  unfolding rd_u32 to_be_bytes to_le_bytes
  rd_u32-shares h = from_be_bytes-to_be_bytes 4 shares h

  rd_u32-price : price < u32_mod → rd_u32 o order_message 32 ≡ price
  unfolding rd_u32 to_be_bytes to_le_bytes
  rd_u32-price h = from_be_bytes-to_be_bytes 4 price h

  byte-side : byte o order_message 19 ≡ side_letter s
  unfolding to_be_bytes to_le_bytes
  byte-side = refl

side_of-letter : (s : Side) → side_of (side_letter s) ≡ side_to_u8 s
side_of-letter bid = refl
side_of-letter ask = refl

pub length-message : (c : Command) → msg_length (byte 0 (message c) 0) ≡ length (message c)
unfolding msg_length to_be_bytes to_le_bytes
length-message (add ts id s shares price) = refl
length-message (delete ts id) = refl
length-message (trade ts id s shares price) = refl

-- What a record of a message with an order reads.
record Reads (o : ℕ) (m : List ℕ) (ts id : ℕ) : Type 0 where
  instrument : rd_u16 o m 1 ≡ 0
  time : rd_ts48 o m 5 ≡ ts
  order : rd_u64 o m 11 ≡ id

head-Reads :
    (o t ts id : ℕ) (rest : List ℕ)
    → ts < 2 ^ 48
    → id < u64_mod
    → Reads o (emit_head t ts id ++ rest) ts id
head-Reads o t ts id rest ht hid = record {
  instrument = rd_u16-head o t ts id rest;
  time = rd_ts48-head o t ts id rest ht;
  order = rd_u64-head o t ts id rest hid;
}

-- Each kind of message, read back.
parse-add :
    (o ts id : ℕ) (s : Side) (shares price : ℕ)
    → Fits (add ts id s shares price)
    → parse_add_order o (message (add ts id s shares price))
      ≡ some (event_of (add ts id s shares price))
unfolding parse_add_order to_be_bytes to_le_bytes
parse-add o ts id s shares price (ht, hid, hs, hp) =
    let r = head-Reads o b'A' ts id (emit_order s shares price) ht hid in
    λ i. some (record {
      ts = r.time i;
      price = rd_u32-price o b'A' ts id s shares price [] hp i;
      qty = rd_u32-shares o b'A' ts id s shares price [] hs i;
      order_id = r.order i;
      instrument_id = r.instrument i;
      event_type = 1;
      side = side_of-letter s i;
      pad = 0;
    })

parse-delete :
    (o ts id : ℕ)
    → Fits (delete ts id)
    → parse_order_delete o (message (delete ts id)) ≡ some (event_of (delete ts id))
unfolding parse_order_delete to_be_bytes to_le_bytes
parse-delete o ts id (ht, hid) =
    let r = head-Reads o b'D' ts id [] ht hid in
    λ i. some (record event_zeroed {
      ts = r.time i;
      order_id = r.order i;
      instrument_id = r.instrument i;
      event_type = 2;
    })

parse-trade :
    (o ts id : ℕ) (s : Side) (shares price : ℕ)
    → Fits (trade ts id s shares price)
    → parse_trade o (message (trade ts id s shares price))
      ≡ some (event_of (trade ts id s shares price))
unfolding parse_trade to_be_bytes to_le_bytes
parse-trade o ts id s shares price (ht, hid, hs, hp) =
    let rest = to_be_bytes 8 0 in
    let r = head-Reads o b'P' ts id (emit_order s shares price ++ rest) ht hid in
    λ i. some (record {
      ts = r.time i;
      price = rd_u32-price o b'P' ts id s shares price rest hp i;
      qty = rd_u32-shares o b'P' ts id s shares price rest hs i;
      order_id = r.order i;
      instrument_id = r.instrument i;
      event_type = 4;
      side = side_of-letter s i;
      pad = 0;
    })

pub dispatch-message : (o : ℕ) (c : Command) → Fits c → dispatch o (message c) ≡ some (event_of c)
unfolding dispatch dispatch_type
dispatch-message o (add ts id s shares price) h = parse-add o ts id s shares price h
dispatch-message o (delete ts id) h = parse-delete o ts id h
dispatch-message o (trade ts id s shares price) h = parse-trade o ts id s shares price h

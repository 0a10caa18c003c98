-- ===== src/Event.antt =====
-- The canonical event (core/src/event.rs) and its integer types (core/src/types.rs).
use flowlab.Prelude.{ℕ, Option, none, some, ◌==◌, if◌then◌else◌}

-- Every field is an unsigned word. `_pad` is the two padding bytes as one number.
pub record Event : Type 0 where
  pub ts : ℕ
  pub price : ℕ
  pub qty : ℕ
  pub order_id : ℕ
  pub instrument_id : ℕ
  pub event_type : ℕ
  pub side : ℕ
  pub pad : ℕ

pub data EventType : Type 0 where
  order_add order_cancel order_modify trade book_snapshot : EventType

-- `EventType::from_u8`
unfoldable pub event_type_from_u8 : ℕ → Option EventType
event_type_from_u8 v =
    if v == 0x01
    then some order_add
    else if v == 0x02
    then some order_cancel
    else if v == 0x03
    then some order_modify
    else if v == 0x04
    then some trade
    else if v == 0x05
    then some book_snapshot
    else none

-- `event_type as u8`
unfoldable pub event_type_to_u8 : EventType → ℕ
event_type_to_u8 order_add = 0x01
event_type_to_u8 order_cancel = 0x02
event_type_to_u8 order_modify = 0x03
event_type_to_u8 trade = 0x04
event_type_to_u8 book_snapshot = 0x05

pub data Side : Type 0 where
  bid ask : Side

-- `Side::from_u8`
unfoldable pub side_from_u8 : ℕ → Option Side
side_from_u8 v = if v == 0 then some bid else if v == 1 then some ask else none

-- `side as u8`
abbrev pub side_to_u8 : Side → ℕ
side_to_u8 bid = 0
side_to_u8 ask = 1

pub record SequencedEvent : Type 0 where
  pub seq : ℕ
  pub channel_id : ℕ
  pub event : Event

-- ===== src/Hot/Slab.antt =====
-- `OrderSlab` of core/src/hot_book.rs: the dense payload, the free list, the index by order id.
pub mod Valid
pub mod Laws
use flowlab.Prelude.{
  ℕ, ◌%◌, Option, none, some, List, [], get_elem?, set, length, push, pop, u32_mod,
}
use flowlab.Map
use flowlab.Map.{Map}

-- The padding bytes are always 0.
pub record OrderMeta : Type 0 where
  pub price : ℕ
  pub qty : ℕ
  pub side : ℕ

pub record OrderSlab : Type 0 where
  pub payload : List OrderMeta
  pub free_list : List ℕ
  pub index : Map ℕ

-- `with_capacity`: the reserved capacity does not show
abbrev pub empty_slab : OrderSlab
empty_slab = record { payload = []; free_list = []; index = [] }

-- `free_list.pop()`, or else `payload.len() as u32`
insert_fresh : OrderSlab → ℕ → OrderMeta → Option (List ℕ × ℕ) → OrderSlab
insert_fresh s order_id meta (some (rest, slot)) = record {
  payload = set s.payload slot meta;
  free_list = rest;
  index = Map.insert order_id slot s.index;
}
insert_fresh s order_id meta none = record s {
  payload = push s.payload meta;
  index = Map.insert order_id (length s.payload % u32_mod) s.index;
}

insert_at_slot : OrderSlab → ℕ → OrderMeta → Option ℕ → OrderSlab
insert_at_slot s order_id meta (some slot) = record s { payload = set s.payload slot meta }
insert_at_slot s order_id meta none = insert_fresh s order_id meta (pop s.free_list)

unfoldable pub insert : OrderSlab → ℕ → OrderMeta → OrderSlab
unfolding insert_at_slot insert_fresh
insert s order_id meta = insert_at_slot s order_id meta (Map.get order_id s.index)

-- The payload is read unchecked: `none` at a stale slot stands for undefined behaviour, which
-- validity rules out.
abbrev pub read : List OrderMeta → Option ℕ → Option OrderMeta
read payload none = none
read payload (some slot) = get_elem? payload slot

-- `get`, and the read through `get_mut`
unfoldable pub get : OrderSlab → ℕ → Option OrderMeta
get s order_id = read s.payload (Map.get order_id s.index)

-- the write through `get_mut`
unfoldable pub set_meta : OrderSlab → ℕ → OrderMeta → OrderSlab
set_meta s order_id meta = elim (Map.get order_id s.index) [
  | none ↦ s
  | some slot ↦ record s { payload = set s.payload slot meta }
]

-- `remove`, less the value that no caller uses
unfoldable pub remove : OrderSlab → ℕ → OrderSlab
remove s order_id = elim (Map.get order_id s.index) [
  | none ↦ s
  | some slot ↦ record s { free_list = push s.free_list slot; index = Map.remove order_id s.index }
]

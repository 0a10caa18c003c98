-- ===== src/Chaos/Phantom.antt =====
-- `PhantomLiquidityDetector` of chaos/src/phantom_liquidity.rs.
pub mod Tracked
pub mod Bound
pub mod Untraded
pub mod Placed
pub mod Cancels
pub mod Orders
pub mod Flags
use flowlab.Prelude.{
  ◌+◌, ℕ, ◌-◌, ◌/◌, max, Bool, true, false, Option, none, some, List, [], ◌∷◌, ltb, leb, ◌==◌, ◌&&◌,
  ◌||◌, if◌then◌else◌, length, add_u32, saturating_add, min, u32_mod,
}
use flowlab.Event.{Event, EventType, SequencedEvent, event_type_from_u8}
use flowlab.Map
use flowlab.Map.{Map}
use flowlab.Chaos.{ChaosKind, ChaosFeatures, ChaosEvent, Doubles}
use flowlab.Chaos.Phantom.Tracked.{
  Key, same_key, key_of, LevelTracker, fully_cancelled, Levels, get_level, remove_level, set_level,
  upsert_level, oldest_from,
}

pub record PhantomLiquidityDetector : Type 0 where
  pub levels : Levels
  pub orders : Map Key
  pub max_seq_gap : ℕ
  pub max_time_gap_ns : ℕ
  pub max_tracked : ℕ
  pub min_qty : ℕ

unfoldable pub new_phantom : ℕ → ℕ → ℕ → ℕ → PhantomLiquidityDetector
new_phantom max_seq_gap max_time_gap_ns max_tracked min_qty = record {
  levels = [];
  orders = [];
  max_seq_gap = max_seq_gap;
  max_time_gap_ns = max_time_gap_ns;
  max_tracked = max_tracked;
  min_qty = min_qty;
}

unfoldable pub tracked_levels : PhantomLiquidityDetector → ℕ
tracked_levels d = length d.levels

unfoldable pub evict_oldest : Levels → Levels
evict_oldest [] = []
evict_oldest ((k, t) ∷ m) = remove_level (oldest_from k t.created_seq m) ((k, t) ∷ m)

-- the level that an add is the first of, and one more add
unfoldable pub fresh_level : SequencedEvent → LevelTracker
fresh_level e = record {
  created_seq = e.seq;
  created_ts = e.event.ts;
  added_qty = e.event.qty;
  cancelled_qty = 0;
  order_count = 1;
  cancel_count = 0;
}

-- `saturating_add(1)` on `u32`
abbrev pub next_u32 : ℕ → ℕ
next_u32 n = min (n + 1) (u32_mod - 1)

unfoldable pub grown_level : SequencedEvent → LevelTracker → LevelTracker
grown_level e t = record t {
  added_qty = saturating_add t.added_qty e.event.qty;
  order_count = next_u32 t.order_count;
}

unfoldable pub on_add : PhantomLiquidityDetector → SequencedEvent → PhantomLiquidityDetector
on_add d e =
    let kept = if leb d.max_tracked (length d.levels) then evict_oldest d.levels else d.levels in
    record d {
      levels = upsert_level (key_of e.event) (grown_level e) (fresh_level e) kept;
      orders =
          if e.event.order_id == 0
          then d.orders
          else Map.insert e.event.order_id (key_of e.event) d.orders;
    }

-- `removed_qty`: a full delete takes the average of what is left for each order.
unfoldable pub removed_qty : LevelTracker → ℕ → ℕ
removed_qty t qty =
    if qty == 0 then max (t.added_qty - t.cancelled_qty) 1 / max t.order_count 1 else qty

unfoldable pub shrunk_level : LevelTracker → ℕ → LevelTracker
shrunk_level t qty = record t {
  cancelled_qty = saturating_add t.cancelled_qty (removed_qty t qty);
  cancel_count = next_u32 t.cancel_count;
}

-- `inside_seq || inside_time`
unfoldable pub is_inside : PhantomLiquidityDetector → SequencedEvent → LevelTracker → Bool
is_inside d e t =
    ltb 0 d.max_seq_gap && leb (e.seq - t.created_seq) d.max_seq_gap
    || ltb 0 d.max_time_gap_ns && leb (e.event.ts - t.created_ts) d.max_time_gap_ns

-- `self.orders.remove(&id)?`, or the event's own level
unfoldable pub cancel_key : PhantomLiquidityDetector → Event → Option Key
cancel_key d e = if e.order_id == 0 then some (key_of e) else Map.get e.order_id d.orders

unfoldable pub forget_order : PhantomLiquidityDetector → Event → PhantomLiquidityDetector
forget_order d e = record d {
  orders = if e.order_id == 0 then d.orders else Map.remove e.order_id d.orders;
}

module _ {F : Type 0} (fl : Doubles F) where
  -- how far inside of a window, or 0 if it is off
  unfoldable pub window_score : ℕ → ℕ → F
  window_score window gap =
      if ltb 0 window
      then fl.sub (fl.from_word 1) (fl.div (fl.from_word gap) (fl.from_word window))
      else fl.from_word 0

  unfoldable pub phantom_flag :
      PhantomLiquidityDetector → SequencedEvent → LevelTracker → ChaosEvent F
  phantom_flag d e t =
      let seq_score = window_score d.max_seq_gap (e.seq - t.created_seq) in
      let time_score = window_score d.max_time_gap_ns (e.event.ts - t.created_ts) in
      record {
        kind = ChaosKind.phantom_liquidity;
        start_seq = t.created_seq;
        end_seq = e.seq;
        start_ts_ns = t.created_ts;
        end_ts_ns = e.event.ts;
        severity = fl.clamp (fl.max seq_score time_score) (fl.from_word 0) (fl.from_word 1);
        initiator = none;
        features = record {
          event_count = add_u32 t.order_count t.cancel_count;
          duration_ns = e.event.ts - t.created_ts;
          cancel_trade_ratio = fl.infinity;
          price_displacement = 0;
          depth_removed = t.cancelled_qty;
        };
      }

  -- the quantity floor and the windows
  unfoldable pub judge :
      PhantomLiquidityDetector → SequencedEvent → LevelTracker → Option (ChaosEvent F)
  judge d e t =
      if ltb t.added_qty d.min_qty
      then none
      else if is_inside d e t
      then some (phantom_flag d e t)
      else none

  -- the level of the cancel, if it is tracked
  unfoldable pub cancel_level :
      PhantomLiquidityDetector
      → SequencedEvent
      → Key
      → Option LevelTracker
      → Option (ChaosEvent F) × PhantomLiquidityDetector
  cancel_level d e k none = (none, d)
  cancel_level d e k (some t) =
      let u = shrunk_level t e.event.qty in
      if fully_cancelled u
      then (judge d e u, record d { levels = remove_level k d.levels })
      else (none, record d { levels = set_level k u d.levels })

  unfoldable pub cancel_at :
      PhantomLiquidityDetector
      → SequencedEvent
      → Option Key
      → Option (ChaosEvent F) × PhantomLiquidityDetector
  cancel_at d e none = (none, d)
  cancel_at d e (some k) = cancel_level d e k (get_level k d.levels)

  unfoldable pub on_cancel :
      PhantomLiquidityDetector → SequencedEvent → Option (ChaosEvent F) × PhantomLiquidityDetector
  on_cancel d e = cancel_at (forget_order d e.event) e (cancel_key d e.event)

  unfoldable pub modified :
      SequencedEvent
      → Option (ChaosEvent F) × PhantomLiquidityDetector
      → Option (ChaosEvent F) × PhantomLiquidityDetector
  modified e (flagged, d) = (flagged, on_add d e)

  -- the `match` on the event type
  unfoldable pub phantom_match :
      PhantomLiquidityDetector
      → SequencedEvent
      → Option EventType
      → Option (ChaosEvent F) × PhantomLiquidityDetector
  phantom_match d e (some EventType.order_add) = (none, on_add d e)
  phantom_match d e (some EventType.order_cancel) = on_cancel d e
  phantom_match d e (some EventType.order_modify) = modified e (on_cancel d e)
  phantom_match d e (some EventType.trade) =
      (none, record d { levels = remove_level (key_of e.event) d.levels })
  phantom_match d e (some EventType.book_snapshot) = (none, d)
  phantom_match d e none = (none, d)

  -- `PhantomLiquidityDetector::process`
  unfoldable pub phantom_process :
      PhantomLiquidityDetector → SequencedEvent → Option (ChaosEvent F) × PhantomLiquidityDetector
  phantom_process d e = phantom_match d e (event_type_from_u8 e.event.event_type)

-- ===== src/Chaos/Detection.antt =====
-- `QuoteStuffDetector` and `SpoofDetector` of chaos/src/detection.rs. An entry of the quote window is
-- (seq, ts, event type), one of the large orders (seq, ts, order id, quantity).
pub mod Quotes
pub mod Spoofs
pub mod Once
use flowlab.Prelude.{
  sub_u64, ℕ, ◌+◌, ◌-◌, ◌*◌, ◌/◌, ◌%◌, max, Bool, true, false, Option, none, some, List, [], ◌∷◌,
  ltb, leb, ◌==◌, ◌&&◌, if◌then◌else◌, push, length, drop, u64_mod,
}
use flowlab.Event.{EventType, SequencedEvent, event_type_from_u8}
use flowlab.Chaos.{ChaosKind, ChaosFeatures, ChaosEvent, Doubles}

-- `matches!(…, OrderAdd | OrderCancel | Trade)`
unfoldable pub is_counted : Option EventType → Bool
is_counted (some EventType.order_add) = true
is_counted (some EventType.order_cancel) = true
is_counted (some EventType.trade) = true
is_counted _ = false

abbrev pub Stamp : Type 0
Stamp = ℕ × ℕ × ℕ

abbrev pub stamp_of : SequencedEvent → Stamp
stamp_of e = (e.seq, e.event.ts, e.event.event_type)

-- `iter().filter(|(_, _, t)| *t == etype).count()`
unfoldable pub count_type : ℕ → List Stamp → ℕ
count_type etype [] = 0
count_type etype (s ∷ w) = let n = count_type etype w in if s.2 == etype then n + 1 else n

-- `front().map(|(s, t, _)| (*s, *t)).unwrap_or((0, 0))`
unfoldable pub front_or : List Stamp → ℕ × ℕ
front_or [] = (0, 0)
front_or (s ∷ w) = (s.0, s.1)

pub record QuoteStuffDetector (F : Type 0) : Type 0 where
  pub window : List Stamp
  pub window_size : ℕ
  pub cancel_ratio_threshold : F

-- the last events, with the new one
unfoldable pub slide : ℕ → List Stamp → Stamp → List Stamp
slide size w s = push (if leb size (length w) then drop 1 w else w) s

module _ {F : Type 0} (fl : Doubles F) where
  unfoldable pub new_quote : ℕ → F → QuoteStuffDetector F
  new_quote window_size threshold = record {
    window = [];
    window_size = window_size;
    cancel_ratio_threshold = threshold;
  }

  -- cancels for each trade of the window
  unfoldable pub cancel_ratio : List Stamp → F
  cancel_ratio w =
      fl.div (fl.from_word (count_type 0x02 w)) (fl.from_word (max (count_type 0x04 w) 1))

  unfoldable pub quote_flag : QuoteStuffDetector F → SequencedEvent → F → ChaosEvent F
  quote_flag d e ratio =
      let (start_seq, start_ts) = front_or d.window in
      record {
        kind = ChaosKind.quote_stuff;
        start_seq = start_seq;
        end_seq = e.seq;
        start_ts_ns = start_ts;
        end_ts_ns = e.event.ts;
        severity =
            fl.min (fl.div (fl.div ratio d.cancel_ratio_threshold) (fl.from_word 2))
              (fl.from_word 1);
        initiator = none;
        features = record {
          event_count = length d.window;
          duration_ns = e.event.ts - start_ts;
          cancel_trade_ratio = ratio;
          price_displacement = 0;
          depth_removed = 0;
        };
      }

  -- the flag of the window, if its ratio is high
  unfoldable pub quote_check : QuoteStuffDetector F → SequencedEvent → Option (ChaosEvent F)
  quote_check d e =
      let ratio = cancel_ratio d.window in
      if fl.ge ratio d.cancel_ratio_threshold && leb (d.window_size / 2) (length d.window)
      then some (quote_flag d e ratio)
      else none

  unfoldable pub quote_counted :
      QuoteStuffDetector F → SequencedEvent → Option (ChaosEvent F) × QuoteStuffDetector F
  quote_counted d e =
      let d' = record d { window = slide d.window_size d.window (stamp_of e) } in
      (quote_check d' e, d')

  -- `QuoteStuffDetector::process`
  unfoldable pub quote_process :
      QuoteStuffDetector F → SequencedEvent → Option (ChaosEvent F) × QuoteStuffDetector F
  quote_process d e =
      if is_counted (event_type_from_u8 e.event.event_type) then quote_counted d e else (none, d)

abbrev pub LargeOrder : Type 0
LargeOrder = ℕ × ℕ × ℕ × ℕ

pub record SpoofDetector : Type 0 where
  pub large_orders : List LargeOrder
  pub large_qty_threshold : ℕ
  pub cancel_window : ℕ

unfoldable pub new_spoof : ℕ → ℕ → SpoofDetector
new_spoof threshold window = record {
  large_orders = [];
  large_qty_threshold = threshold;
  cancel_window = window;
}

-- `retain(|(s, ..)| seq - s < self.cancel_window * 2)`
unfoldable pub retain_young : ℕ → ℕ → List LargeOrder → List LargeOrder
retain_young seq window [] = []
retain_young seq window (o ∷ os) =
    let rest = retain_young seq window os in
    if ltb (sub_u64 seq o.0) (window * 2 % u64_mod) then o ∷ rest else rest

abbrev pub keep_order :
    LargeOrder → Option (LargeOrder × List LargeOrder) → Option (LargeOrder × List LargeOrder)
keep_order o none = none
keep_order o (some (p, os)) = some (p, o ∷ os)

-- `position(|(_, _, oid, _)| *oid == id)` and `remove(pos)`
unfoldable pub take_order : ℕ → List LargeOrder → Option (LargeOrder × List LargeOrder)
take_order id [] = none
take_order id (o ∷ os) =
    let rest = keep_order o (take_order id os) in if o.2 == id then some (o, os) else rest

-- a large order
unfoldable pub spoof_add : SpoofDetector → SequencedEvent → SpoofDetector
spoof_add d e = record d {
  large_orders =
      retain_young e.seq d.cancel_window
        (push d.large_orders (e.seq, e.event.ts, e.event.order_id, e.event.qty));
}

module _ {F : Type 0} (fl : Doubles F) where
  unfoldable pub spoof_flag : SpoofDetector → SequencedEvent → LargeOrder → ChaosEvent F
  spoof_flag d e o = record {
    kind = ChaosKind.spoof;
    start_seq = o.0;
    end_seq = e.seq;
    start_ts_ns = o.1;
    end_ts_ns = e.event.ts;
    severity =
        fl.min
          (fl.div (fl.div (fl.from_word o.3) (fl.from_word d.large_qty_threshold)) (fl.from_word 5))
          (fl.from_word 1);
    initiator = some e.event.order_id;
    features = record {
      event_count = 2;
      duration_ns = e.event.ts - o.1;
      cancel_trade_ratio = fl.from_word 0;
      price_displacement = 0;
      depth_removed = o.3;
    };
  }

  -- a cancel, with the order that it takes from the list
  unfoldable pub spoof_cancel :
      SpoofDetector
      → SequencedEvent
      → Option (LargeOrder × List LargeOrder)
      → Option (ChaosEvent F) × SpoofDetector
  spoof_cancel d e none = (none, d)
  spoof_cancel d e (some (o, rest)) = (
    if leb (sub_u64 e.seq o.0) d.cancel_window then some (spoof_flag d e o) else none,
    record d { large_orders = rest },
  )

  -- the `match` on the event type
  unfoldable pub spoof_match :
      SpoofDetector → SequencedEvent → Option EventType → Option (ChaosEvent F) × SpoofDetector
  spoof_match d e (some EventType.order_add) =
      (none, if leb d.large_qty_threshold e.event.qty then spoof_add d e else d)
  spoof_match d e (some EventType.order_cancel) =
      spoof_cancel d e (take_order e.event.order_id d.large_orders)
  spoof_match d e _ = (none, d)

  -- `SpoofDetector::process`
  unfoldable pub spoof_process :
      SpoofDetector → SequencedEvent → Option (ChaosEvent F) × SpoofDetector
  spoof_process d e = spoof_match d e (event_type_from_u8 e.event.event_type)

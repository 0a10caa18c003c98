-- ===== src/Breaker.antt =====
-- `CircuitBreaker` and `TokenBucket` of flow/src/circuit_breaker.rs, one call after the other (the
-- locks and atomics of the code make each access exclusive). Floating point is the parameter `Floats`
-- and the clock a number of nanoseconds that each call is given; nothing is assumed of either.
pub mod Latch
pub mod Bounds
pub mod Limits
mod Tests
use flowlab.Prelude.{
  ℕ, ◌+◌, ◌%◌, u32_mod, Bool, true, false, Option, none, some, List, [], ◌∷◌, ltb, leb, ◌==◌,
  if◌then◌else◌, length, max, add_u64, push, neg_i64, mul_i64, abs_i64, ltb_i64,
}
use flowlab.Map
use flowlab.Map.{Map}

pub data HaltReason : Type 0 where
  rate_limit position_cap daily_loss_floor order_to_trade_ratio feed_gap manual : HaltReason

pub data Decision : Type 0 where
  allow : Decision
  block : HaltReason → Decision

pub data Side : Type 0 where
  buy sell : Side

pub record Intent : Type 0 where
  pub instrument_id : ℕ
  pub side : Side
  pub qty : ℕ
  pub price_ticks : ℕ

pub record Fill : Type 0 where
  pub instrument_id : ℕ
  pub side : Side
  pub qty : ℕ
  pub price_ticks : ℕ

-- The operations of `f64` that the code uses; `seconds` is the time between two instants.
pub record Floats (F : Type 0) : Type 0 where
  pub from_word : ℕ → F
  pub seconds : (earlier now : ℕ) → F
  pub add : F → F → F
  pub sub : F → F → F
  pub mul : F → F → F
  pub div : F → F → F
  pub min : F → F → F
  pub ge : F → F → Bool
  pub gt : F → F → Bool

pub record TokenBucket (F : Type 0) : Type 0 where
  pub tokens : F
  pub last : ℕ
  pub capacity : F

pub record BreakerConfig (F : Type 0) : Type 0 where
  pub max_orders_per_sec : Option ℕ
  pub max_position : Option ℕ
  pub max_daily_loss_ticks : Option ℕ
  pub max_order_to_trade_ratio : Option F
  pub otr_warmup : ℕ
  pub gap_threshold : Option ℕ
  pub gap_window : ℕ

pub record CircuitBreaker (F : Type 0) : Type 0 where
  pub cfg : BreakerConfig F
  pub halted : Bool
  pub reason : Option HaltReason
  pub orders_sent : ℕ
  pub trades_done : ℕ
  pub cash_flow_ticks : ℕ
  pub positions : Map ℕ
  pub rate : TokenBucket F
  pub gap_log : List ℕ

pub record BreakerSnapshot : Type 0 where
  pub halted : Bool
  pub reason : Option HaltReason
  pub orders_sent : ℕ
  pub trades_done : ℕ
  pub cash_flow_ticks : ℕ
  pub net_position : ℕ
  pub gaps_in_window : ℕ

-- `unwrap_or(u32::MAX)` and `unwrap_or(0)`
abbrev pub or_else : ℕ → Option ℕ → ℕ
or_else d none = d
or_else d (some x) = x

-- the quantity with the sign of the side, as an `i64`
unfoldable pub signed_qty : Side → ℕ → ℕ
signed_qty Side.buy qty = qty
signed_qty Side.sell qty = neg_i64 qty

-- `retain(|t| *t >= now - window)`
unfoldable pub retain_recent : ℕ → ℕ → List ℕ → List ℕ
retain_recent now window [] = []
retain_recent now window (t ∷ ts) =
    let rest = retain_recent now window ts in if leb now (t + window) then t ∷ rest else rest

-- `positions.values().map(|p| p.abs()).sum()`
unfoldable pub sum_abs : List ℕ → ℕ
sum_abs [] = 0
sum_abs (p ∷ ps) = add_u64 (abs_i64 p) (sum_abs ps)

module _ {F : Type 0} where
  unfoldable pub is_halted : CircuitBreaker F → Bool
  is_halted b = b.halted

  unfoldable pub halt_reason : CircuitBreaker F → Option HaltReason
  halt_reason b = b.reason

  -- A snapshot prunes the gap log.
  unfoldable pub snapshot : CircuitBreaker F → ℕ → BreakerSnapshot × CircuitBreaker F
  snapshot b now =
      let log = retain_recent now b.cfg.gap_window b.gap_log in
      (
        record {
          halted = is_halted b;
          reason = halt_reason b;
          orders_sent = b.orders_sent;
          trades_done = b.trades_done;
          cash_flow_ticks = b.cash_flow_ticks;
          net_position = sum_abs (Map.values b.positions);
          gaps_in_window = length log % u32_mod;
        },
        record b { gap_log = log },
      )

  unfoldable pub latch : CircuitBreaker F → HaltReason → Decision × CircuitBreaker F
  latch b reason = elim b.reason [
    | some r ↦ (Decision.block r, b)
    | none ↦ (Decision.block reason, record b { reason = some reason; halted = true })
  ]

  unfoldable pub manual_halt : CircuitBreaker F → CircuitBreaker F
  manual_halt b = (latch b HaltReason.manual).1

  unfoldable pub reset : CircuitBreaker F → CircuitBreaker F
  reset b = record b { reason = none; halted = false }

  unfoldable pub start_of_day : CircuitBreaker F → CircuitBreaker F
  start_of_day b = reset (record b {
    orders_sent = 0;
    trades_done = 0;
    cash_flow_ticks = 0;
    positions = [];
    gap_log = [];
  })

  unfoldable pub record_fill : CircuitBreaker F → Fill → CircuitBreaker F
  record_fill b fill =
      let signed = signed_qty fill.side fill.qty in
      let position = or_else 0 (Map.get fill.instrument_id b.positions) in
      record b {
        trades_done = add_u64 b.trades_done 1;
        positions = Map.insert fill.instrument_id (add_u64 position signed) b.positions;
        cash_flow_ticks = add_u64 b.cash_flow_ticks (mul_i64 (neg_i64 signed) fill.price_ticks);
      }

  -- the log with the gap of now, and the test on its length
  unfoldable pub log_gap : CircuitBreaker F → ℕ → ℕ → CircuitBreaker F
  log_gap b now threshold =
      let log = push (retain_recent now b.cfg.gap_window b.gap_log) now in
      let b' = record b { gap_log = log } in
      if leb threshold (length log) then (latch b' HaltReason.feed_gap).1 else b'

  unfoldable pub record_gap : CircuitBreaker F → ℕ → CircuitBreaker F
  record_gap b now = elim b.cfg.gap_threshold [
    | none ↦ b
    | some threshold ↦ log_gap b now threshold
  ]

module _ {F : Type 0} (fl : Floats F) where
  unfoldable pub new_bucket : F → ℕ → TokenBucket F
  new_bucket capacity now = record { tokens = capacity; last = now; capacity = capacity }

  unfoldable pub try_take : TokenBucket F → F → F → ℕ → Bool × TokenBucket F
  try_take t n rate_per_sec now =
      let elapsed = fl.seconds t.last now in
      let tokens = fl.min (fl.add t.tokens (fl.mul elapsed rate_per_sec)) t.capacity in
      if fl.ge tokens n
      then (true, record t { last = now; tokens = fl.sub tokens n })
      else (false, record t { last = now; tokens = tokens })

  -- `BreakerConfig::default`, with the window in nanoseconds
  unfoldable pub default_config : BreakerConfig F
  default_config = record {
    max_orders_per_sec = some 5000;
    max_position = some 10000;
    max_daily_loss_ticks = some 5000000000;
    max_order_to_trade_ratio = some (fl.from_word 100);
    otr_warmup = 100;
    gap_threshold = some 16;
    gap_window = 60000000000;
  }

  unfoldable pub new : BreakerConfig F → ℕ → CircuitBreaker F
  new cfg now = record {
    cfg = cfg;
    halted = false;
    reason = none;
    orders_sent = 0;
    trades_done = 0;
    cash_flow_ticks = 0;
    positions = [];
    rate = new_bucket (fl.from_word (or_else 4294967295 cfg.max_orders_per_sec)) now;
    gap_log = [];
  }

  -- The checks of `check`, from the last to the first; each goes on with the next.
  unfoldable pub allowed : CircuitBreaker F → Decision × CircuitBreaker F
  allowed b = (Decision.allow, record b { orders_sent = add_u64 b.orders_sent 1 })

  -- the share of orders that traded, once warm
  unfoldable pub ratio_exceeded : CircuitBreaker F → F → Bool
  ratio_exceeded b max_otr =
      if leb b.cfg.otr_warmup b.orders_sent
      then fl.gt (fl.div (fl.from_word b.orders_sent) (fl.from_word (max b.trades_done 1))) max_otr
      else false

  unfoldable pub check_ratio : CircuitBreaker F → Decision × CircuitBreaker F
  check_ratio b = elim b.cfg.max_order_to_trade_ratio [
    | none ↦ allowed b
    | some max_otr ↦
        if ratio_exceeded b max_otr then latch b HaltReason.order_to_trade_ratio else allowed b
  ]

  unfoldable pub check_loss : CircuitBreaker F → Decision × CircuitBreaker F
  check_loss b = elim b.cfg.max_daily_loss_ticks [
    | none ↦ check_ratio b
    | some floor ↦
        if ltb_i64 b.cash_flow_ticks (neg_i64 floor)
        then latch b HaltReason.daily_loss_floor
        else check_ratio b
  ]

  -- the position after the order, as an `i64`
  abbrev pub position_after : CircuitBreaker F → Intent → ℕ
  position_after b intent =
      add_u64 (or_else 0 (Map.get intent.instrument_id b.positions))
        (signed_qty intent.side intent.qty)

  unfoldable pub check_position : CircuitBreaker F → Intent → Decision × CircuitBreaker F
  check_position b intent = elim b.cfg.max_position [
    | none ↦ check_loss b
    | some max_pos ↦
        if ltb_i64 max_pos (abs_i64 (position_after b intent))
        then latch b HaltReason.position_cap
        else check_loss b
  ]

  -- the token of one order
  unfoldable pub check_rate : CircuitBreaker F → Intent → ℕ → Decision × CircuitBreaker F
  check_rate b intent now = elim b.cfg.max_orders_per_sec [
    | none ↦ check_position b intent
    | some rps ↦
        let (taken, bucket) = try_take b.rate (fl.from_word 1) (fl.from_word rps) now in
        let b' = record b { rate = bucket } in
        if taken then check_position b' intent else latch b' HaltReason.rate_limit
  ]

  unfoldable pub check : CircuitBreaker F → Intent → ℕ → Decision × CircuitBreaker F
  check b intent now = elim b.reason [
    | some r ↦ (Decision.block r, b)
    | none ↦ check_rate b intent now
  ]

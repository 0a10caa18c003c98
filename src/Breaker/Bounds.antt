-- ===== src/Breaker/Bounds.antt =====
-- The limits of the circuit breaker (flow/src/circuit_breaker.rs) without its control flow: what it is
-- to keep a limit or to break it, and what a check is to decide and to leave.
use flowlab.Prelude.{
  ℕ, ◌≤◌, ◌<◌, max, Bool, true, false, if◌then◌else◌, ◌≡◌, Option, some, none, ◌⊎◌, add_u64,
  abs_i64, ltb_i64, neg_i64,
}
use flowlab.Breaker.{
  HaltReason, Decision, Side, Intent, Floats, CircuitBreaker, TokenBucket, or_else,
}
use flowlab.Map

-- the order in which the limits are looked at
abbrev pub rank : HaltReason → ℕ
rank HaltReason.rate_limit = 0
rank HaltReason.position_cap = 1
rank HaltReason.daily_loss_floor = 2
rank HaltReason.order_to_trade_ratio = 3
rank HaltReason.feed_gap = 4
rank HaltReason.manual = 5

module _ {F : Type 0} (fl : Floats F) where
  -- the tokens at an instant: those left, with what the time since has brought, up to the capacity
  abbrev pub refilled : TokenBucket F → ℕ → ℕ → F
  refilled t rps now =
      fl.min (fl.add t.tokens (fl.mul (fl.seconds t.last now) (fl.from_word rps))) t.capacity

  abbrev pub has_token : TokenBucket F → ℕ → ℕ → Bool
  has_token t rps now = fl.ge (refilled t rps now) (fl.from_word 1)

  -- An order takes one token if there is one; the bucket is not looked at where no rate is set.
  abbrev pub bucket_after : TokenBucket F → Option ℕ → ℕ → TokenBucket F
  bucket_after t none now = t
  bucket_after t (some rps) now = record {
    tokens =
        if has_token t rps now
        then fl.sub (refilled t rps now) (fl.from_word 1)
        else refilled t rps now;
    last = now;
    capacity = t.capacity;
  }

  abbrev pub charged : CircuitBreaker F → ℕ → CircuitBreaker F
  charged b now = record b { rate = bucket_after b.rate b.cfg.max_orders_per_sec now }

  -- the position in the order's instrument with the order, as an `i64`
  abbrev pub moved : ℕ → Side → ℕ → ℕ
  moved held Side.buy qty = add_u64 held qty
  moved held Side.sell qty = add_u64 held (neg_i64 qty)

  abbrev pub exposure : CircuitBreaker F → Intent → ℕ
  exposure b intent =
      moved (or_else 0 (Map.get intent.instrument_id b.positions)) intent.side intent.qty

  abbrev pub orders_per_trade : CircuitBreaker F → F
  orders_per_trade b = fl.div (fl.from_word b.orders_sent) (fl.from_word (max b.trades_done 1))

  -- The order keeps a limit, or breaks it: a limit that is not set is kept.
  abbrev pub Keeps : CircuitBreaker F → Intent → ℕ → HaltReason → Type 0
  Keeps b intent now HaltReason.rate_limit =
      (rps : ℕ) → b.cfg.max_orders_per_sec ≡ some rps → has_token b.rate rps now ≡ true
  Keeps b intent now HaltReason.position_cap =
      (max_pos : ℕ)
      → b.cfg.max_position ≡ some max_pos
      → ltb_i64 max_pos (abs_i64 (exposure b intent)) ≡ false
  Keeps b intent now HaltReason.daily_loss_floor =
      (floor : ℕ)
      → b.cfg.max_daily_loss_ticks ≡ some floor
      → ltb_i64 b.cash_flow_ticks (neg_i64 floor) ≡ false
  Keeps b intent now HaltReason.order_to_trade_ratio =
      (max_otr : F)
      → b.cfg.max_order_to_trade_ratio ≡ some max_otr
      → b.cfg.otr_warmup ≤ b.orders_sent
      → fl.gt (orders_per_trade b) max_otr ≡ false
  Keeps b intent now HaltReason.feed_gap = Unit
  Keeps b intent now HaltReason.manual = Unit

  abbrev pub Breaks : CircuitBreaker F → Intent → ℕ → HaltReason → Type 0
  Breaks b intent now HaltReason.rate_limit =
      (rps : ℕ) × (b.cfg.max_orders_per_sec ≡ some rps) × (has_token b.rate rps now ≡ false)
  Breaks b intent now HaltReason.position_cap =
      (max_pos : ℕ) × (b.cfg.max_position ≡ some max_pos)
      × (ltb_i64 max_pos (abs_i64 (exposure b intent)) ≡ true)
  Breaks b intent now HaltReason.daily_loss_floor =
      (floor : ℕ) × (b.cfg.max_daily_loss_ticks ≡ some floor)
      × (ltb_i64 b.cash_flow_ticks (neg_i64 floor) ≡ true)
  Breaks b intent now HaltReason.order_to_trade_ratio =
      (max_otr : F) × (b.cfg.max_order_to_trade_ratio ≡ some max_otr)
      × (b.cfg.otr_warmup ≤ b.orders_sent)
      × (fl.gt (orders_per_trade b) max_otr ≡ true)
  Breaks b intent now HaltReason.feed_gap = ⊥
  Breaks b intent now HaltReason.manual = ⊥

  -- It breaks this limit and none that is looked at before.
  abbrev pub BreaksFirst : CircuitBreaker F → Intent → ℕ → HaltReason → Type 0
  BreaksFirst b intent now reason =
      Breaks b intent now reason
      × ((other : HaltReason) → rank other < rank reason → Keeps b intent now other)

  -- Every order that a breaker is asked about is blocked for the halt that is in force, allowed with
  -- all limits kept, or blocked for the first limit that it breaks.
  abbrev pub Decides : CircuitBreaker F → Intent → ℕ → Decision × CircuitBreaker F → Type 0
  Decides b intent now r =
      ((reason : HaltReason) × (b.reason ≡ some reason) × (r ≡ (Decision.block reason, b)))
      ⊎ ((b.reason ≡ none)
          × ((limit : HaltReason) → Keeps b intent now limit)
          × (r
              ≡ (Decision.allow, record (charged b now) { orders_sent = add_u64 b.orders_sent 1 })))
      ⊎ ((reason : HaltReason) × (b.reason ≡ none)
          × BreaksFirst b intent now reason
          × (r ≡ (
            Decision.block reason,
            record (charged b now) { reason = some reason; halted = true },
          )))

-- ===== src/Breaker/Tests.antt =====
-- The theorems on the breaker at concrete calls; whole numbers stand for floating point.
use flowlab.Prelude.{ℕ, ◌+◌, ◌-◌, ◌*◌, ◌/◌, ◌≡◌, refl, some, List, [], ◌∷◌, ltb, leb, min}
use flowlab.Breaker.{
  HaltReason, Decision, Side, Intent, Floats, BreakerConfig, CircuitBreaker, new, check, latch,
}
use flowlab.Breaker.Latch.{Call, session, session-blocked}

abbrev whole : Floats ℕ
whole = record {
  from_word = λ n. n;
  seconds = λ earlier now. (now - earlier) / 1000000000;
  add = λ a b. a + b;
  sub = λ a b. a - b;
  mul = λ a b. a * b;
  div = λ a b. a / b;
  min = min;
  ge = λ a b. leb b a;
  gt = λ a b. ltb b a;
}

abbrev cfg : BreakerConfig ℕ
cfg = record {
  max_orders_per_sec = some 2;
  max_position = some 100;
  max_daily_loss_ticks = some 5000;
  max_order_to_trade_ratio = some 10;
  otr_warmup = 3;
  gap_threshold = some 2;
  gap_window = 60000000000;
}

abbrev intent : Intent
intent = record { instrument_id = 1; side = Side.buy; qty = 60; price_ticks = 10 }

abbrev started : CircuitBreaker ℕ
started = new whole cfg 0

abbrev halted : CircuitBreaker ℕ
halted = (latch started HaltReason.manual).1

abbrev calls : List Call
calls =
    Call.checked intent 5
    ∷ Call.gapped 6
    ∷ Call.gapped 7
    ∷ Call.filled (record { instrument_id = 1; side = Side.sell; qty = 3; price_ticks = 10 })
    ∷ []

session-blocked_example :
    check whole (session whole halted calls) intent 9
    ≡ (Decision.block HaltReason.manual, session whole halted calls)
session-blocked_example =
    session-blocked whole halted HaltReason.manual calls intent 9 (unfold latch new in refl)

-- ===== src/Breaker/Limits.antt =====
-- `check` of flow/src/circuit_breaker.rs finds the first limit that an order breaks.
use flowlab.Prelude.{ℕ, suc, ◌≤◌, ◌<◌, true, ◌≡◌, some, zero, none, ◌⊎◌, add_u64}
use flowlab.Breaker.{HaltReason, Decision, Intent, Floats, CircuitBreaker, TokenBucket}
use flowlab.Map
use flowlab.Breaker.Bounds.{rank, Keeps, Breaks}

unrank : ℕ → HaltReason
unrank zero = HaltReason.rate_limit
unrank (suc zero) = HaltReason.position_cap
unrank (suc (suc zero)) = HaltReason.daily_loss_floor
unrank (suc (suc (suc zero))) = HaltReason.order_to_trade_ratio
unrank (suc (suc (suc (suc zero)))) = HaltReason.feed_gap
unrank (suc (suc (suc (suc (suc n))))) = HaltReason.manual

-- The checks from some rank on, for an order that keeps the limits before it; `b'` is the breaker
-- that has paid for the order.
module _ {F : Type 0} (fl : Floats F) (b : CircuitBreaker F) (t : TokenBucket F) (intent : Intent)
    (now : ℕ) (running : b.reason ≡ none) where
  abbrev paid : CircuitBreaker F
  paid = record b { rate = t }

  abbrev DecidesFrom : ℕ → Decision × CircuitBreaker F → Type 0
  DecidesFrom n r =
      (((limit : HaltReason) → n ≤ rank limit → Keeps fl b intent now limit)
        × (r ≡ (Decision.allow, record paid { orders_sent = add_u64 b.orders_sent 1 })))
      ⊎ ((reason : HaltReason) × Breaks fl b intent now reason
          × ((other : HaltReason)
              → n ≤ rank other
              → rank other < rank reason
              → Keeps fl b intent now other)
          × (r ≡ (Decision.block reason, record paid { reason = some reason; halted = true })))

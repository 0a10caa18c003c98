-- ===== src/Chaos.antt =====
-- What the chaos detectors share (chaos/src/lib.rs): the kinds, the event that a detector raises and
-- its features. Floating point is the parameter `Doubles`; nothing is assumed of it.
pub mod Refractory
pub mod Clustering
pub mod Detection
pub mod CancelStorm
pub mod Phantom
pub mod MiniBook
pub mod Momentum
pub mod FlashCrash
mod Tests
use flowlab.Prelude.{ℕ, Bool, true, false, Option}

pub data ChaosKind : Type 0 where
  quote_stuff phantom_liquidity spoof cancellation_storm momentum_ignition flash_crash
        latency_arbitrage :
      ChaosKind

-- The operations of `f64` that the detectors and the clusterer use.
pub record Doubles (F : Type 0) : Type 0 where
  pub from_word : ℕ → F
  pub infinity : F
  pub epsilon : F
  pub add : F → F → F
  pub sub : F → F → F
  pub mul : F → F → F
  pub div : F → F → F
  pub min : F → F → F
  pub max : F → F → F
  pub clamp : F → F → F → F
  pub ln : F → F
  pub sqrt : F → F
  pub ge : F → F → Bool
  pub gt : F → F → Bool

-- `price_displacement` is an `i64` as a word.
pub record ChaosFeatures (F : Type 0) : Type 0 where
  pub event_count : ℕ
  pub duration_ns : ℕ
  pub cancel_trade_ratio : F
  pub price_displacement : ℕ
  pub depth_removed : ℕ

pub record ChaosEvent (F : Type 0) : Type 0 where
  pub kind : ChaosKind
  pub start_seq : ℕ
  pub end_seq : ℕ
  pub start_ts_ns : ℕ
  pub end_ts_ns : ℕ
  pub severity : F
  pub initiator : Option ℕ
  pub features : ChaosFeatures F

-- the derived `==` of `ChaosKind`
unfoldable pub same_kind : ChaosKind → ChaosKind → Bool
same_kind ChaosKind.quote_stuff ChaosKind.quote_stuff = true
same_kind ChaosKind.phantom_liquidity ChaosKind.phantom_liquidity = true
same_kind ChaosKind.spoof ChaosKind.spoof = true
same_kind ChaosKind.cancellation_storm ChaosKind.cancellation_storm = true
same_kind ChaosKind.momentum_ignition ChaosKind.momentum_ignition = true
same_kind ChaosKind.flash_crash ChaosKind.flash_crash = true
same_kind ChaosKind.latency_arbitrage ChaosKind.latency_arbitrage = true
same_kind _ _ = false

-- ===== src/Chaos/Momentum.antt =====
-- `process` of `MomentumIgnitionDetector` (chaos/src/momentum_ignition.rs): the trigger and the flag.
pub mod State
pub mod Runs
use flowlab.Prelude.{
  sub_u64, ℕ, ◌-◌, Bool, true, false, Option, none, some, List, [], ◌∷◌, ltb, leb, ◌==◌, ◌&&◌, ◌||◌,
  not, if◌then◌else◌, push, add_u64, saturating_add, min, ◌+◌, u32_mod,
}
use flowlab.Event.{Event, EventType, SequencedEvent, event_type_from_u8}
use flowlab.Tracker
use flowlab.Tracker.{OrderTracker, ResolvedBookUpdate, ResolvedTrade, AggressorSide}
use flowlab.Chaos.{ChaosKind, ChaosFeatures, ChaosEvent, Doubles}
use flowlab.Chaos.MiniBook.{MiniBook, empty_book, add_qty, sub_qty, midprice, bps_move}
use flowlab.Chaos.Momentum.State.{
  Dir, same_dir, MidSample, MomentumIgnitionDetector, new_momentum, book_add, book_sub,
  count_aggressor, apply_trade, apply_event, is_change, evict_mids, evicted, evict_expired,
  before_last, run_step, update_run,
}

unfoldable pub is_aligned : MomentumIgnitionDetector → Dir → Bool
is_aligned d Dir.up = ltb d.sell_pressure d.buy_pressure
is_aligned d Dir.down = ltb d.buy_pressure d.sell_pressure

unfoldable pub dominant : MomentumIgnitionDetector → Dir → ℕ
dominant d Dir.up = d.buy_pressure
dominant d Dir.down = d.sell_pressure

-- the run, the trades and the move are enough, and the pressure is the run's
unfoldable pub triggers : MomentumIgnitionDetector → ℕ → Dir → Bool
triggers d mid dir =
    leb d.min_consecutive d.run_len
    && (leb d.min_trades d.trades_in_window
        && (leb d.min_move_bps (bps_move d.run_start_mid mid) && is_aligned d dir))

-- the sample of a mid, if it changed
unfoldable pub sampled : MomentumIgnitionDetector → SequencedEvent → ℕ → MomentumIgnitionDetector
sampled d e mid =
    if is_change d.mids mid
    then (λ (d' : MomentumIgnitionDetector).
          update_run d' mid e.seq e.event.ts (before_last d'.mids))
        (evict_expired
          (record d { mids = push d.mids (record { seq = e.seq; ts = e.event.ts; mid = mid }) })
          e.seq e.event.ts)
    else evict_expired d e.seq e.event.ts

module _ {F : Type 0} (fl : Doubles F) where
  unfoldable pub unit_score : F → F
  unit_score x = fl.clamp x (fl.from_word 0) (fl.from_word 1)

  -- a decimal fraction such as 0.6, which is the nearest double of 6 / 10
  unfoldable pub tenths : ℕ → F
  tenths n = fl.div (fl.from_word n) (fl.from_word 10)

  unfoldable pub imbalance : MomentumIgnitionDetector → Dir → F
  imbalance d dir =
      let total = add_u64 d.buy_pressure d.sell_pressure in
      if total == 0
      then fl.from_word 0
      else fl.div (fl.from_word (dominant d dir)) (fl.from_word total)

  unfoldable pub momentum_flag : MomentumIgnitionDetector → SequencedEvent → ℕ → Dir → ChaosEvent F
  momentum_flag d e mid dir =
      let move_score = unit_score (
        fl.div (fl.from_word (bps_move d.run_start_mid mid))
          (fl.mul (fl.from_word d.min_move_bps) (fl.from_word 4))) in
      let imb_score = unit_score (fl.mul (fl.sub (imbalance d dir) (tenths 5)) (fl.from_word 2)) in
      record {
        kind = ChaosKind.momentum_ignition;
        start_seq = d.run_start_seq;
        end_seq = e.seq;
        start_ts_ns = d.run_start_ts;
        end_ts_ns = e.event.ts;
        severity = unit_score (fl.add (fl.mul (tenths 6) move_score) (fl.mul (tenths 4) imb_score));
        initiator = none;
        features = record {
          event_count = d.trades_in_window;
          duration_ns = e.event.ts - d.run_start_ts;
          cancel_trade_ratio = fl.from_word 0;
          price_displacement = sub_u64 mid d.run_start_mid;
          depth_removed = 0;
        };
      }

  unfoldable pub evaluate :
      MomentumIgnitionDetector
      → SequencedEvent
      → ℕ
      → Option Dir
      → Option (ChaosEvent F) × MomentumIgnitionDetector
  evaluate d e mid none = (none, d)
  evaluate d e mid (some dir) =
      if triggers d mid dir
      then (
        some (momentum_flag d e mid dir),
        record d {
          refractory_until = saturating_add e.seq d.cooldown_seq;
          run_dir = none;
          run_len = 0;
        },
      )
      else (none, d)

  -- the rest of `process`, by the mid after the event
  unfoldable pub with_mid :
      MomentumIgnitionDetector
      → SequencedEvent
      → Option ℕ
      → Option (ChaosEvent F) × MomentumIgnitionDetector
  with_mid d e none = (none, d)
  with_mid d e (some mid) =
      let d' = sampled d e mid in
      if ltb e.seq d.refractory_until then (none, d') else evaluate d' e mid d'.run_dir

  unfoldable pub momentum_event :
      MomentumIgnitionDetector
      → SequencedEvent
      → Option EventType
      → Option (ChaosEvent F) × MomentumIgnitionDetector
  momentum_event d e none = (none, d)
  momentum_event d e (some EventType.book_snapshot) = (none, d)
  momentum_event d e (some t) = let d' = apply_event d e.event t in with_mid d' e (midprice d'.book)

  -- `MomentumIgnitionDetector::process`
  unfoldable pub momentum_process :
      MomentumIgnitionDetector → SequencedEvent → Option (ChaosEvent F) × MomentumIgnitionDetector
  momentum_process d e = momentum_event d e (event_type_from_u8 e.event.event_type)

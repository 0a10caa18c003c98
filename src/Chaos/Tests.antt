-- ===== src/Chaos/Tests.antt =====
-- The detectors and the clusterer on concrete events, with whole numbers in the place of doubles.
use mathlib.Core.List.{Perm}
use flowlab.Prelude.{
  Ascends, sub_u64, add_u64, add_u32, saturating_add, ℕ, ◌+◌, ◌-◌, ◌*◌, ◌/◌, ◌≡◌, refl, max, min,
  Option, none, some, List, [], ◌∷◌, leb, ltb, length, All, sort_by_key, arith,
}
use flowlab.Event.{SequencedEvent, event_type_from_u8}
use flowlab.Map
use flowlab.Tracker
use flowlab.Chaos.{ChaosKind, ChaosEvent, Doubles}
use flowlab.Chaos.Refractory.{Spaced}
use flowlab.Chaos.Clustering.{cluster, with_windows}
use flowlab.Chaos.Clustering.Episodes.{IsEpisode, events_of}
use flowlab.Chaos.Clustering.Partition.{by_start, cluster-events, cluster-IsEpisode}
use flowlab.Chaos.Detection.{
  count_type, new_spoof, spoof_process, spoof_match, spoof_cancel, spoof_add, spoof_flag,
  take_order, retain_young,
}
use flowlab.Chaos.Detection.Spoofs.{IsSpoof, spoof_run, spoof_process-IsSpoof}
use flowlab.Chaos.Detection.Once.{spoof_process-detects}
use flowlab.Chaos.CancelStorm.{CancellationStormDetector, new_storm}
use flowlab.Chaos.CancelStorm.Count.{storm_run, storm_run-count}
use flowlab.Chaos.CancelStorm.Spacing.{storm_flags, storm_flags-Spaced}
use flowlab.Chaos.Phantom.{
  PhantomLiquidityDetector, new_phantom, tracked_levels, phantom_process, phantom_match, on_cancel,
  cancel_at, cancel_key, on_add, cancel_level, forget_order, shrunk_level, fresh_level, removed_qty,
  evict_oldest, grown_level, is_inside, judge, phantom_flag, window_score,
}
use flowlab.Chaos.Phantom.Tracked.{
  get_level, upsert_level, fully_cancelled, oldest_from, remove_level, set_level,
}
use flowlab.Chaos.Phantom.Bound.{Capped, phantom_run, phantom_run-Capped}
use flowlab.Chaos.Phantom.Orders.{phantom_run-orders}
use flowlab.Chaos.MiniBook.{
  empty_book, side_of, set_side, farthest, prune_loop, prune_levels, add_qty, taken, sub_level,
  sub_qty, best_bid, best_ask, mid_of, midprice, bps_move,
}
use flowlab.Chaos.Momentum.{
  momentum_process, momentum_event, with_mid, is_aligned, dominant, triggers, evaluate,
  momentum_flag, imbalance, tenths, unit_score, sampled,
}
use flowlab.Chaos.Momentum.State.{
  MomentumIgnitionDetector, new_momentum, apply_event, apply_trade, count_aggressor, evict_expired,
  evict_mids, evicted, before_last, run_step, update_run, is_change, same_dir,
}
use flowlab.Chaos.Momentum.Runs.{Traded, momentum_flags, momentum_flags-Spaced}
use flowlab.Chaos.FlashCrash.Book.{FlashCrashDetector, new_crash}
use flowlab.Chaos.FlashCrash.Process.{crash_run, crash_run-best}

abbrev whole : Doubles ℕ
whole = record {
  from_word = λ n. n;
  infinity = 1000;
  epsilon = 0;
  add = λ a b. a + b;
  sub = λ a b. a - b;
  mul = λ a b. a * b;
  div = λ a b. a / b;
  min = λ a b. min a b;
  max = λ a b. max a b;
  clamp = λ a lo hi. min (max a lo) hi;
  ln = λ a. a / 3;
  sqrt = λ a. a / 2;
  ge = λ a b. leb b a;
  gt = λ a b. ltb b a;
}

abbrev event : (seq event_type order_id side price qty : ℕ) → SequencedEvent
event seq event_type order_id side price qty = record {
  seq = seq;
  channel_id = 0;
  event = record {
    ts = seq * 10;
    price = price;
    qty = qty;
    order_id = order_id;
    instrument_id = 1;
    event_type = event_type;
    side = side;
    pad = 0;
  };
}

abbrev flag : ChaosKind → ℕ → ℕ → ℕ → ChaosEvent ℕ
flag kind start end actor = record {
  kind = kind;
  start_seq = start;
  end_seq = end;
  start_ts_ns = start;
  end_ts_ns = end;
  severity = start;
  initiator = some actor;
  features = record {
    event_count = 1;
    duration_ns = 0;
    cancel_trade_ratio = 0;
    price_displacement = 0;
    depth_removed = 0;
  };
}

-- a flag, or a stand-in
abbrev or_flag : Option (ChaosEvent ℕ) → ChaosEvent ℕ
or_flag none = flag ChaosKind.spoof 0 0 0
or_flag (some f) = f

abbrev flags : List (ChaosEvent ℕ)
flags =
    flag ChaosKind.spoof 40 45 7
    ∷ flag ChaosKind.flash_crash 10 12 1
    ∷ flag ChaosKind.momentum_ignition 11 20 2
    ∷ flag ChaosKind.spoof 47 48 7
    ∷ flag ChaosKind.spoof 48 49 8
    ∷ []

cluster-events_example :
    (events_of (cluster whole (with_windows 5 0) flags) ≡ sort_by_key by_start flags)
    × Ascends by_start (events_of (cluster whole (with_windows 5 0) flags))
    × Perm (events_of (cluster whole (with_windows 5 0) flags)) flags
cluster-events_example = cluster-events whole (with_windows 5 0) flags

cluster-IsEpisode_example : All (IsEpisode whole) (cluster whole (with_windows 5 0) flags)
cluster-IsEpisode_example = cluster-IsEpisode whole (with_windows 5 0) flags

-- an add of 500 shares, and its cancel
abbrev add_500 : SequencedEvent
add_500 = event 1 1 9 0 100 500

abbrev cancel_500 : SequencedEvent
cancel_500 = event 4 2 9 0 100 500

spoof_process-IsSpoof_example :
    IsSpoof whole 400 10 (add_500 ∷ []) cancel_500 (
      or_flag
        (spoof_process whole (spoof_run whole (new_spoof 400 10) (add_500 ∷ [])) cancel_500).0)
unfolding spoof_process new_spoof event_type_from_u8 spoof_match spoof_cancel spoof_add take_order
    retain_young sub_u64 spoof_flag
spoof_process-IsSpoof_example = spoof_process-IsSpoof whole 400 10 (add_500 ∷ []) cancel_500 _ refl

spoof_process-detects_example :
    (f : ChaosEvent ℕ) × ((spoof_process whole
        (spoof_process whole (new_spoof 400 10) add_500).1
        cancel_500).0
      ≡ some f)
    × (f.start_seq ≡ 1)
    × (f.initiator ≡ some 9)
unfolding spoof_process new_spoof event_type_from_u8 sub_u64
spoof_process-detects_example =
    spoof_process-detects whole (new_spoof 400 10) add_500 cancel_500 refl refl (omega arith)
      (omega arith) (omega arith) (omega arith) (omega arith) refl tt

abbrev storm : CancellationStormDetector ℕ
storm = new_storm whole 3 0 2 0 0 0 1 4

abbrev cancels : List SequencedEvent
cancels = event 1 1 1 0 10 5 ∷ event 2 2 1 0 10 5 ∷ event 3 2 2 0 10 5 ∷ event 9 2 3 0 10 5 ∷ []

storm_run-count_example :
    (storm_run whole storm cancels).cancels_in_window
    ≡ count_type 0x02 (storm_run whole storm cancels).window
unfolding new_storm
storm_run-count_example = storm_run-count whole storm cancels refl refl (omega arith)

storm_flags-Spaced_example : Spaced 4 0 (storm_flags whole storm cancels)
unfolding new_storm
storm_flags-Spaced_example = storm_flags-Spaced whole storm cancels

abbrev phantom : PhantomLiquidityDetector
phantom = new_phantom 256 0 1 100

-- An execution of 100 shares that names its order alone, and the delete of what is left.
abbrev by_order : List SequencedEvent
by_order = add_500 ∷ event 2 4 9 0 0 100 ∷ []

-- The level is flagged all the same, with all 500 shares as cancelled.
executed_is_flagged :
    (or_flag
      (phantom_process whole
        (phantom_run whole phantom by_order)
        (event 4 2 9 0 0 0)).0).features.depth_removed
    ≡ 500
unfolding phantom_process new_phantom phantom_match event_type_from_u8 on_cancel cancel_at
    cancel_key Map.get on_add Map.insert cancel_level get_level forget_order upsert_level
    fully_cancelled shrunk_level fresh_level saturating_add removed_qty evict_oldest grown_level
    is_inside judge oldest_from phantom_flag remove_level set_level window_score Map.remove add_u32
executed_is_flagged = refl

abbrev two_adds : List SequencedEvent
two_adds = add_500 ∷ event 2 1 10 0 101 500 ∷ []

phantom_run-Capped_example : Capped (phantom_run whole phantom two_adds) 1
unfolding new_phantom tracked_levels
phantom_run-Capped_example = phantom_run-Capped whole phantom two_adds 1 (refl, omega arith)

-- One level is tracked, and two orders.
phantom_run-orders_example : length (phantom_run whole phantom two_adds).orders ≡ 0 + 2
unfolding new_phantom event_type_from_u8 Map.get Map.insert
phantom_run-orders_example =
    phantom_run-orders whole phantom two_adds
      ((refl, (omega arith), refl, (refl, (omega arith), refl, tt)))

-- a bid, an ask, and a buyer that takes one share
abbrev rising : MomentumIgnitionDetector
rising =
    (momentum_process whole
      (momentum_process whole
        (momentum_process whole (new_momentum 100 0 10 1 1 2 5) (event 1 1 1 0 100 10)).1
        (event 2 1 2 1 110 10)).1
      (event 3 4 2 1 110 1)).1

abbrev higher_bid : SequencedEvent
higher_bid = event 4 1 3 0 104 10

momentum_flags-Spaced_example :
    Spaced 5 0 (momentum_flags whole rising (higher_bid ∷ []))
    × All (Traded whole 1) (momentum_flags whole rising (higher_bid ∷ []))
unfolding momentum_process momentum_event event_type_from_u8 with_mid midprice mid_of best_bid
    best_ask Map.last Map.first Map.get Map.remove apply_event Tracker.on_add Tracker.on_trade
    Tracker.trade_known Tracker.trade_resting Tracker.take_qty Tracker.added
    Tracker.anonymous_update Tracker.resolved_qty Tracker.aggressor_from_resting_side add_qty
    set_side side_of prune_levels prune_loop farthest Map.insert sub_u64 bps_move sub_level sub_qty
    taken apply_trade count_aggressor evict_expired evict_mids evicted before_last run_step
    update_run is_change is_aligned dominant same_dir triggers evaluate momentum_flag imbalance
    tenths unit_score sampled new_momentum empty_book add_u64 saturating_add
momentum_flags-Spaced_example = momentum_flags-Spaced whole rising (higher_bid ∷ [])

abbrev crash : FlashCrashDetector ℕ
crash = new_crash 10 8 2 5 0 3 100

-- Two bids and an ask; the cap prunes the lower bid, and then the best bid is cancelled.
abbrev crash_events : List SequencedEvent
crash_events =
    event 1 1 1 0 100 10
    ∷ event 2 1 2 1 105 10
    ∷ event 3 1 3 0 102 10
    ∷ event 4 1 4 0 99 10
    ∷ event 5 2 3 0 102 10
    ∷ []

crash_run-best_example :
    ((crash_run whole crash crash_events).cached_bb
      ≡ best_bid (crash_run whole crash crash_events).book)
    × ((crash_run whole crash crash_events).cached_ba
        ≡ best_ask (crash_run whole crash crash_events).book)
unfolding new_crash best_bid Map.last empty_book best_ask Map.first
crash_run-best_example =
    crash_run-best whole crash crash_events ((refl, refl, tt, tt, omega arith), tt)

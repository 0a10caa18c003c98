-- ===== src/Chaos/FlashCrash.antt =====
-- `process` of `FlashCrashDetector` (chaos/src/flash_crash.rs): snapshots of the top, the search for
-- a gap, and the flag.
pub mod Book
pub mod Best
pub mod Cached
pub mod Process
use flowlab.Prelude.{
  sub_u64, ℕ, zero, suc, ◌+◌, ◌-◌, ◌%◌, ◌/◌, min, max, Bool, true, false, Option, none, some, List,
  [], ◌∷◌, ltb, leb, ◌==◌, ◌&&◌, ◌||◌, not, if◌then◌else◌, length, get_or, set, replicate, add_u64,
  add_u32, saturating_add, u32_mod,
}
use flowlab.Event.{Event, EventType, SequencedEvent, event_type_from_u8}
use flowlab.Map
use flowlab.Map.{Map}
use flowlab.Tracker
use flowlab.Tracker.{OrderTracker, ResolvedBookUpdate, ResolvedTrade, AggressorSide}
use flowlab.Chaos.{ChaosKind, ChaosFeatures, ChaosEvent, Doubles}
use flowlab.Chaos.Momentum.{unit_score, tenths}
use flowlab.Chaos.MiniBook.{
  MiniBook, empty_book, side_of, set_side, prune_levels, qty_or_0, taken, sub_level, best_bid,
  best_ask, mid_of, bps_move,
}
use flowlab.Chaos.FlashCrash.Book.{
  snap_cap, TopSnapshot, no_snapshot, CrashDir, FlashCrashDetector, price_or_0, improves, sum_range,
  is_price, crash_dir, next_aggr, new_crash, cached_mid, depth_in_band_around, depth_of_best,
  depth_in_band, in_band_of_best, in_band_same_side, widen, with_level, crash_add, without_level,
  was_best, narrow, crash_sub_entry, crash_sub, crash_book_add, crash_book_sub, count_aggr,
  crash_trade, crash_event,
}

module _ {F : Type 0} where
  -- `push_snap`
  unfoldable pub push_snap : FlashCrashDetector F → TopSnapshot → FlashCrashDetector F
  push_snap d snap = record d {
    snaps = set d.snaps d.snap_head snap;
    snap_head = (d.snap_head + 1) % snap_cap;
    snap_len = if ltb d.snap_len (d.gap_window_events + 1) then d.snap_len + 1 else d.snap_len;
  }

  -- the snapshot of the top before the event, if there is a mid
  unfoldable pub snapshot_top :
      FlashCrashDetector F → SequencedEvent → Option ℕ → FlashCrashDetector F
  snapshot_top d e none = d
  snapshot_top d e (some mid) =
      let (depth, d') = depth_in_band d in
      push_snap d' (record {
        seq = e.seq;
        ts = e.event.ts;
        mid = mid;
        best_bid = price_or_0 d.cached_bb;
        best_ask = price_or_0 d.cached_ba;
        depth_in_band = depth;
      })

  -- `snaps[(snap_head + SNAP_CAP - snap_len + i) % SNAP_CAP]`
  unfoldable pub snap_at : FlashCrashDetector F → ℕ → TopSnapshot
  snap_at d i = get_or d.snaps ((d.snap_head + snap_cap - d.snap_len + i) % snap_cap) no_snapshot

  unfoldable pub is_gap : FlashCrashDetector F → SequencedEvent → ℕ → TopSnapshot → Bool
  is_gap d e mid s =
      ltb 0 (e.seq - s.seq)
      && (leb (e.seq - s.seq) d.gap_window_events && leb d.min_gap_bps (bps_move s.mid mid))

  -- the loop over the snapshots from the oldest: how many are left, and the index
  unfoldable pub find_hit : FlashCrashDetector F → SequencedEvent → ℕ → ℕ → ℕ → Option TopSnapshot
  find_hit d e mid zero i = none
  find_hit d e mid (suc left) i =
      let rest = find_hit d e mid left (i + 1) in
      if is_gap d e mid (snap_at d i) then some (snap_at d i) else rest

  unfoldable pub aligned_count : FlashCrashDetector F → CrashDir → ℕ
  aligned_count d CrashDir.down = d.sell_aggr
  aligned_count d CrashDir.up = d.buy_aggr

module _ {F : Type 0} (fl : Doubles F) where
  unfoldable pub depth_drop : ℕ → ℕ → F
  depth_drop before now = fl.div (fl.from_word (before - min now before)) (fl.from_word before)

  -- `drop_ok`
  unfoldable pub has_collapsed : FlashCrashDetector F → ℕ → ℕ → Bool
  has_collapsed d before now =
      if fl.ge d.depth_drop_pct (fl.from_word 0) && fl.ge (fl.from_word 0) d.depth_drop_pct
      then true
      else if before == 0
      then false
      else fl.ge (depth_drop before now) d.depth_drop_pct

  unfoldable pub crash_flag :
      FlashCrashDetector F → SequencedEvent → ℕ → TopSnapshot → ℕ → ChaosEvent F
  crash_flag d e mid s now =
      let total = max (add_u32 d.buy_aggr d.sell_aggr) 1 in
      let imbalance =
        fl.div (fl.from_word (aligned_count d (crash_dir s mid))) (fl.from_word total) in
      let move_score = unit_score fl (
        fl.div (fl.from_word (bps_move s.mid mid))
          (fl.mul (fl.from_word d.min_gap_bps) (fl.from_word 4))) in
      let depth_score =
        if ltb 0 s.depth_in_band
        then unit_score fl (depth_drop s.depth_in_band now)
        else fl.from_word 0 in
      let moved = fl.mul (tenths fl 5) move_score in
      let sunk = fl.mul (tenths fl 3) depth_score in
      let pressed = fl.mul (tenths fl 2) imbalance in
      record {
        kind = ChaosKind.flash_crash;
        start_seq = s.seq;
        end_seq = e.seq;
        start_ts_ns = s.ts;
        end_ts_ns = e.event.ts;
        severity = unit_score fl (fl.add (fl.add moved sunk) pressed);
        initiator = none;
        features = record {
          event_count = e.seq - s.seq;
          duration_ns = e.event.ts - s.ts;
          cancel_trade_ratio = fl.from_word 0;
          price_displacement = sub_u64 mid s.mid;
          depth_removed = s.depth_in_band - now;
        };
      }

  -- the flag of a hit, if the depth fell and the aggressors agree
  unfoldable pub crash_hit :
      FlashCrashDetector F
      → SequencedEvent
      → ℕ
      → Option TopSnapshot
      → Option (ChaosEvent F) × FlashCrashDetector F
  crash_hit d e mid none = (none, d)
  crash_hit d e mid (some s) =
      let now = depth_in_band_around d s.best_bid s.best_ask in
      if has_collapsed d s.depth_in_band now
        && leb d.min_aggr_trades (aligned_count d (crash_dir s mid))
      then (
        some (crash_flag d e mid s now),
        record d {
          refractory_until = saturating_add e.seq d.cooldown_seq;
          buy_aggr = 0;
          sell_aggr = 0;
          snap_len = 0;
        },
      )
      else (none, d)

  -- the rest of `process`, by the mid after the event
  unfoldable pub crash_mid :
      FlashCrashDetector F
      → SequencedEvent
      → Option ℕ
      → Option (ChaosEvent F) × FlashCrashDetector F
  crash_mid d e none = (none, d)
  crash_mid d e (some mid) =
      if ltb e.seq d.refractory_until
      then (none, record d { buy_aggr = 0; sell_aggr = 0 })
      else crash_hit d e mid (find_hit d e mid d.snap_len 0)

  unfoldable pub crash_match :
      FlashCrashDetector F
      → SequencedEvent
      → Option EventType
      → Option (ChaosEvent F) × FlashCrashDetector F
  crash_match d e none = (none, d)
  crash_match d e (some EventType.book_snapshot) = (none, snapshot_top d e (cached_mid d))
  crash_match d e (some t) =
      let d' = crash_event (snapshot_top d e (cached_mid d)) e.event t in
      crash_mid d' e (cached_mid d')

  -- `FlashCrashDetector::process`
  unfoldable pub crash_process :
      FlashCrashDetector F → SequencedEvent → Option (ChaosEvent F) × FlashCrashDetector F
  crash_process d e = crash_match d e (event_type_from_u8 e.event.event_type)

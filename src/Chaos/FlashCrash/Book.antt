-- ===== src/Chaos/FlashCrash/Book.antt =====
-- The state of `FlashCrashDetector` (chaos/src/flash_crash.rs) and its book: two price maps and their
-- cap in the words of `MiniBook`, with the best prices and the depth of the band kept beside them.
use flowlab.Prelude.{
  ℕ, ◌+◌, ◌-◌, min, Bool, true, false, Option, none, some, List, [], ◌∷◌, ltb, leb, ◌==◌, ◌&&◌,
  ◌||◌, not, if◌then◌else◌, length, replicate, add_u64, saturating_add, u32_mod,
}
use flowlab.Event.{Event, EventType}
use flowlab.Map
use flowlab.Map.{Map}
use flowlab.Tracker
use flowlab.Tracker.{OrderTracker, ResolvedBookUpdate, ResolvedTrade, AggressorSide}
use flowlab.Chaos.MiniBook.{
  MiniBook, empty_book, side_of, set_side, prune_levels, qty_or_0, taken, sub_level, best_bid,
  best_ask, mid_of,
}

abbrev pub snap_cap : ℕ
snap_cap = 16

pub record TopSnapshot : Type 0 where
  pub seq : ℕ
  pub ts : ℕ
  pub mid : ℕ
  pub best_bid : ℕ
  pub best_ask : ℕ
  pub depth_in_band : ℕ

abbrev pub no_snapshot : TopSnapshot
no_snapshot = record { seq = 0; ts = 0; mid = 0; best_bid = 0; best_ask = 0; depth_in_band = 0 }

pub data CrashDir : Type 0 where
  down up : CrashDir

pub record FlashCrashDetector (F : Type 0) : Type 0 where
  pub book : MiniBook
  pub order_tracker : OrderTracker
  pub cached_bb : Option ℕ
  pub cached_ba : Option ℕ
  pub snaps : List TopSnapshot
  pub snap_head : ℕ
  pub snap_len : ℕ
  pub band_depth : ℕ
  pub band_depth_valid : Bool
  pub min_gap_bps : ℕ
  pub gap_window_events : ℕ
  pub depth_band_ticks : ℕ
  pub depth_drop_pct : F
  pub min_aggr_trades : ℕ
  pub cooldown_seq : ℕ
  pub buy_aggr : ℕ
  pub sell_aggr : ℕ
  pub refractory_until : ℕ

abbrev pub price_or_0 : Option ℕ → ℕ
price_or_0 none = 0
price_or_0 (some price) = price

-- an add that makes a new best of its side
unfoldable pub improves : ℕ → ℕ → Option ℕ → Bool
improves side price none = true
improves side price (some best) = if side == 0 then ltb best price else ltb price best

-- `map.range(lo..=hi).map(|(_, &q)| q).sum()`
unfoldable pub sum_range : ℕ → ℕ → Map ℕ → ℕ
sum_range lo hi [] = 0
sum_range lo hi ((price, qty) ∷ m) =
    let rest = sum_range lo hi m in if leb lo price && leb price hi then add_u64 qty rest else rest

unfoldable pub is_price : Option ℕ → ℕ → Bool
is_price none price = false
is_price (some best) price = best == price

unfoldable pub crash_dir : TopSnapshot → ℕ → CrashDir
crash_dir s mid = if ltb mid s.mid then CrashDir.down else CrashDir.up

-- `saturating_add(1)` on `u32`
abbrev pub next_aggr : ℕ → ℕ
next_aggr n = min (n + 1) (u32_mod - 1)

module _ {F : Type 0} where
  unfoldable pub new_crash : ℕ → ℕ → ℕ → ℕ → F → ℕ → ℕ → FlashCrashDetector F
  new_crash min_gap_bps gap_window_events max_book_levels depth_band_ticks depth_drop_pct
        min_aggr_trades cooldown_seq =
      record {
        book = empty_book max_book_levels;
        order_tracker = Tracker.new;
        cached_bb = none;
        cached_ba = none;
        snaps = replicate snap_cap no_snapshot;
        snap_head = 0;
        snap_len = 0;
        band_depth = 0;
        band_depth_valid = true;
        min_gap_bps = min_gap_bps;
        gap_window_events = gap_window_events;
        depth_band_ticks = depth_band_ticks;
        depth_drop_pct = depth_drop_pct;
        min_aggr_trades = min_aggr_trades;
        cooldown_seq = cooldown_seq;
        buy_aggr = 0;
        sell_aggr = 0;
        refractory_until = 0;
      }

  -- `midprice`, of the cached best prices
  unfoldable pub cached_mid : FlashCrashDetector F → Option ℕ
  cached_mid d = mid_of d.cached_bb d.cached_ba

  unfoldable pub depth_in_band_around : FlashCrashDetector F → ℕ → ℕ → ℕ
  depth_in_band_around d bb ba =
      saturating_add (sum_range (bb - d.depth_band_ticks) bb d.book.bids)
        (sum_range ba (saturating_add ba d.depth_band_ticks) d.book.asks)

  abbrev pub depth_of_best : FlashCrashDetector F → Option ℕ → Option ℕ → ℕ
  depth_of_best d (some bb) (some ba) = depth_in_band_around d bb ba
  depth_of_best d _ _ = 0

  -- `depth_in_band`: the depth is computed anew if what is kept is not valid.
  unfoldable pub depth_in_band : FlashCrashDetector F → ℕ × FlashCrashDetector F
  depth_in_band d =
      let depth = depth_of_best d d.cached_bb d.cached_ba in
      if d.band_depth_valid
      then (d.band_depth, d)
      else (depth, record d { band_depth = depth; band_depth_valid = true })

  unfoldable pub in_band_of_best : FlashCrashDetector F → ℕ → ℕ → Option ℕ → Bool
  in_band_of_best d side price none = false
  in_band_of_best d side price (some best) =
      if side == 0
      then leb (best - d.depth_band_ticks) price && leb price best
      else leb best price && leb price (saturating_add best d.depth_band_ticks)

  unfoldable pub in_band_same_side : FlashCrashDetector F → ℕ → ℕ → Bool
  in_band_same_side d side price =
      in_band_of_best d side price (if side == 0 then d.cached_bb else d.cached_ba)

  -- what an add does to the depth that is kept
  unfoldable pub widen : FlashCrashDetector F → Bool → ℕ → ℕ → ℕ → FlashCrashDetector F
  widen d stale side price qty =
      if stale
      then record d { band_depth_valid = false }
      else if d.band_depth_valid && in_band_same_side d side price
      then record d { band_depth = saturating_add d.band_depth qty }
      else d

  -- the map with the order, its levels pruned, and the best of the side
  unfoldable pub with_level : FlashCrashDetector F → ℕ → ℕ → Map ℕ → FlashCrashDetector F
  with_level d side price m =
      let moved = improves side price (if side == 0 then d.cached_bb else d.cached_ba) in
      record d {
        book = set_side d.book side (prune_levels m side d.book.max_book_levels);
        cached_bb = if side == 0 && moved then some price else d.cached_bb;
        cached_ba = if not (side == 0) && moved then some price else d.cached_ba;
      }

  -- `FlashCrashDetector::add_qty`
  unfoldable pub crash_add : FlashCrashDetector F → ℕ → ℕ → ℕ → FlashCrashDetector F
  crash_add d side price qty =
      let m = side_of d.book side in
      let m' = Map.insert price (add_u64 (qty_or_0 (Map.get price m)) qty) m in
      let moved = improves side price (if side == 0 then d.cached_bb else d.cached_ba) in
      let pruned = not (length m' == length (prune_levels m' side d.book.max_book_levels)) in
      widen (with_level d side price m') (moved || pruned) side price qty

  -- the best of a side, read again from the map if the level that went was it
  unfoldable pub without_level :
      FlashCrashDetector F → ℕ → ℕ → MiniBook → Bool → FlashCrashDetector F
  without_level d side price b emptied = record d {
    book = b;
    cached_bb =
        if emptied && (side == 0 && is_price d.cached_bb price) then best_bid b else d.cached_bb;
    cached_ba =
        if emptied && (side == 1 && is_price d.cached_ba price) then best_ask b else d.cached_ba;
  }

  -- the best that an emptied level was
  unfoldable pub was_best : FlashCrashDetector F → ℕ → ℕ → Bool → Bool
  was_best d side price emptied =
      emptied
      && (side == 0 && is_price d.cached_bb price || side == 1 && is_price d.cached_ba price)

  unfoldable pub narrow : FlashCrashDetector F → Bool → ℕ → ℕ → ℕ → FlashCrashDetector F
  narrow d stale side price removed =
      if stale
      then record d { band_depth_valid = false }
      else if d.band_depth_valid && (ltb 0 removed && in_band_same_side d side price)
      then record d { band_depth = d.band_depth - removed }
      else d

  -- the entry of the price, if there is one
  unfoldable pub crash_sub_entry :
      FlashCrashDetector F → ℕ → ℕ → ℕ → Option ℕ → FlashCrashDetector F
  crash_sub_entry d side price qty none = d
  crash_sub_entry d side price qty (some entry) =
      let removed = taken qty entry in
      let emptied = entry - removed == 0 in
      let b = set_side d.book side (sub_level price qty (side_of d.book side) (some entry)) in
      narrow (without_level d side price b emptied) (was_best d side price emptied) side price
        removed

  -- `FlashCrashDetector::sub_qty`
  unfoldable pub crash_sub : FlashCrashDetector F → ℕ → ℕ → ℕ → FlashCrashDetector F
  crash_sub d side price qty =
      crash_sub_entry d side price qty (Map.get price (side_of d.book side))

  abbrev pub crash_book_add :
      FlashCrashDetector F → Option ResolvedBookUpdate → FlashCrashDetector F
  crash_book_add d none = d
  crash_book_add d (some u) = crash_add d u.side u.price u.qty

  abbrev pub crash_book_sub :
      FlashCrashDetector F → Option ResolvedBookUpdate → FlashCrashDetector F
  crash_book_sub d none = d
  crash_book_sub d (some u) = crash_sub d u.side u.price u.qty

  unfoldable pub count_aggr : FlashCrashDetector F → AggressorSide → FlashCrashDetector F
  count_aggr d AggressorSide.buy = record d { buy_aggr = next_aggr d.buy_aggr }
  count_aggr d AggressorSide.sell = record d { sell_aggr = next_aggr d.sell_aggr }

  unfoldable pub crash_trade : FlashCrashDetector F → Option ResolvedTrade → FlashCrashDetector F
  crash_trade d none = d
  crash_trade d (some trade) = crash_book_sub (count_aggr d trade.aggressor) (some trade.update)

  -- the `match` on the event type, a book snapshot aside
  unfoldable pub crash_event : FlashCrashDetector F → Event → EventType → FlashCrashDetector F
  crash_event d e EventType.order_add =
      let (update, t) = Tracker.on_add d.order_tracker e in
      crash_book_add (record d { order_tracker = t }) update
  crash_event d e EventType.order_cancel =
      let (update, t) = Tracker.on_cancel d.order_tracker e in
      crash_book_sub (record d { order_tracker = t }) update
  crash_event d e EventType.trade =
      let (trade, t) = Tracker.on_trade d.order_tracker e in
      crash_trade (record d { order_tracker = t }) trade
  crash_event d e EventType.order_modify = d
  crash_event d e EventType.book_snapshot = d

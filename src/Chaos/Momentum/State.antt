-- ===== src/Chaos/Momentum/State.antt =====
-- The state of `MomentumIgnitionDetector` (chaos/src/momentum_ignition.rs) and what an event does to
-- it: the book, the samples and the run. Its two price maps and their cap are the field `book`.
use flowlab.Prelude.{
  ℕ, ◌-◌, Bool, true, false, Option, none, some, List, [], ◌∷◌, ltb, ◌==◌, ◌&&◌, ◌||◌, not,
  if◌then◌else◌, add_u64, min, ◌+◌, u32_mod,
}
use flowlab.Event.{Event, EventType}
use flowlab.Tracker
use flowlab.Tracker.{OrderTracker, ResolvedBookUpdate, ResolvedTrade, AggressorSide}
use flowlab.Chaos.MiniBook.{MiniBook, empty_book, add_qty, sub_qty}

pub data Dir : Type 0 where
  up down : Dir

unfoldable pub same_dir : Dir → Option Dir → Bool
same_dir Dir.up (some Dir.up) = true
same_dir Dir.down (some Dir.down) = true
same_dir _ _ = false

pub record MidSample : Type 0 where
  pub seq : ℕ
  pub ts : ℕ
  pub mid : ℕ

pub record MomentumIgnitionDetector : Type 0 where
  pub book : MiniBook
  pub order_tracker : OrderTracker
  pub mids : List MidSample
  pub buy_pressure : ℕ
  pub sell_pressure : ℕ
  pub trades_in_window : ℕ
  pub seq_window : ℕ
  pub time_window_ns : ℕ
  pub min_move_bps : ℕ
  pub min_trades : ℕ
  pub min_consecutive : ℕ
  pub cooldown_seq : ℕ
  pub run_dir : Option Dir
  pub run_len : ℕ
  pub run_start_seq : ℕ
  pub run_start_ts : ℕ
  pub run_start_mid : ℕ
  pub refractory_until : ℕ

unfoldable pub new_momentum : ℕ → ℕ → ℕ → ℕ → ℕ → ℕ → ℕ → MomentumIgnitionDetector
new_momentum seq_window time_window_ns max_book_levels min_move_bps min_trades min_consecutive
      cooldown_seq =
    record {
      book = empty_book max_book_levels;
      order_tracker = Tracker.new;
      mids = [];
      buy_pressure = 0;
      sell_pressure = 0;
      trades_in_window = 0;
      seq_window = seq_window;
      time_window_ns = time_window_ns;
      min_move_bps = min_move_bps;
      min_trades = min_trades;
      min_consecutive = min_consecutive;
      cooldown_seq = cooldown_seq;
      run_dir = none;
      run_len = 0;
      run_start_seq = 0;
      run_start_ts = 0;
      run_start_mid = 0;
      refractory_until = 0;
    }

-- an update that the tracker resolved, on the book
abbrev pub book_add : MiniBook → Option ResolvedBookUpdate → MiniBook
book_add b none = b
book_add b (some u) = add_qty b u.side u.price u.qty

abbrev pub book_sub : MiniBook → Option ResolvedBookUpdate → MiniBook
book_sub b none = b
book_sub b (some u) = sub_qty b u.side u.price u.qty

unfoldable pub count_aggressor : MomentumIgnitionDetector → AggressorSide → MomentumIgnitionDetector
count_aggressor d AggressorSide.buy = record d { buy_pressure = add_u64 d.buy_pressure 1 }
count_aggressor d AggressorSide.sell = record d { sell_pressure = add_u64 d.sell_pressure 1 }

unfoldable pub apply_trade :
    MomentumIgnitionDetector → Option ResolvedTrade → MomentumIgnitionDetector
apply_trade d none = d
apply_trade d (some trade) =
    count_aggressor
      (record d {
        book = book_sub d.book (some trade.update);
        trades_in_window = add_u64 d.trades_in_window 1;
      })
      trade.aggressor

-- the `match` on the event type, a book snapshot aside
unfoldable pub apply_event : MomentumIgnitionDetector → Event → EventType → MomentumIgnitionDetector
apply_event d e EventType.order_add =
    let (update, t) = Tracker.on_add d.order_tracker e in
    record d { order_tracker = t; book = book_add d.book update }
apply_event d e EventType.order_cancel =
    let (update, t) = Tracker.on_cancel d.order_tracker e in
    record d { order_tracker = t; book = book_sub d.book update }
apply_event d e EventType.trade =
    let (trade, t) = Tracker.on_trade d.order_tracker e in
    apply_trade (record d { order_tracker = t }) trade
apply_event d e EventType.order_modify = d
apply_event d e EventType.book_snapshot = d

-- `back().map(|s| s.mid != mid_after).unwrap_or(true)`
unfoldable pub is_change : List MidSample → ℕ → Bool
is_change [] mid = true
is_change (s ∷ []) mid = not (s.mid == mid)
is_change (s ∷ r ∷ w) mid = is_change (r ∷ w) mid

-- the loop of `evict_expired`
unfoldable pub evict_mids : MomentumIgnitionDetector → ℕ → ℕ → List MidSample → List MidSample
evict_mids d cur_seq cur_ts [] = []
evict_mids d cur_seq cur_ts (s ∷ w) =
    let rest = evict_mids d cur_seq cur_ts w in
    if ltb 0 d.seq_window && ltb d.seq_window (cur_seq - s.seq)
      || ltb 0 d.time_window_ns && ltb d.time_window_ns (cur_ts - s.ts)
    then rest
    else s ∷ w

-- `evict_expired`: the counters go back to 0 when no sample is left.
unfoldable pub evicted : MomentumIgnitionDetector → List MidSample → MomentumIgnitionDetector
evicted d [] = record d { mids = []; buy_pressure = 0; sell_pressure = 0; trades_in_window = 0 }
evicted d (s ∷ w) = record d { mids = s ∷ w }

unfoldable pub evict_expired : MomentumIgnitionDetector → ℕ → ℕ → MomentumIgnitionDetector
evict_expired d cur_seq cur_ts = evicted d (evict_mids d cur_seq cur_ts d.mids)

-- `iter().rev().nth(1)`
unfoldable pub before_last : List MidSample → Option MidSample
before_last [] = none
before_last (s ∷ []) = none
before_last (s ∷ r ∷ []) = some s
before_last (s ∷ r ∷ q ∷ w) = before_last (r ∷ q ∷ w)

-- a step in a direction from the sample before
unfoldable pub run_step : MomentumIgnitionDetector → MidSample → Dir → MomentumIgnitionDetector
run_step d prev dir =
    if same_dir dir d.run_dir
    then record d { run_len = min (d.run_len + 1) (u32_mod - 1) }
    else record d {
      run_dir = some dir;
      run_len = 2;
      run_start_seq = prev.seq;
      run_start_ts = prev.ts;
      run_start_mid = prev.mid;
    }

unfoldable pub update_run :
    MomentumIgnitionDetector → ℕ → ℕ → ℕ → Option MidSample → MomentumIgnitionDetector
update_run d mid seq ts none = record d {
  run_dir = none;
  run_len = 1;
  run_start_seq = seq;
  run_start_ts = ts;
  run_start_mid = mid;
}
update_run d mid seq ts (some prev) =
    if ltb prev.mid mid
    then run_step d prev Dir.up
    else if ltb mid prev.mid
    then run_step d prev Dir.down
    else d

-- ===== src/Chaos/FlashCrash/Process.antt =====
-- `FlashCrashDetector::process` (chaos/src/flash_crash.rs) as a whole keeps the cached best prices true.
use flowlab.Prelude.{
  subst, sym, ℕ, zero, suc, ◌≤◌, ◌≡◌, ◌⊎◌, refl, Option, none, some, List, [], ◌∷◌, All, ltb, leb,
  ◌==◌, ◌&&◌, arith, Bool-cases, inl, inr,
}
use flowlab.Event.{Event, EventType, SequencedEvent, event_type_from_u8}
use flowlab.Map
use flowlab.Map.{Map}
use flowlab.Map.Laws.{All-insert, All-remove}
use flowlab.Tracker.{
  OrderTracker, OrderMeta, ResolvedBookUpdate, ResolvedTrade, AggressorSide, anonymous_update,
  take_qty, added, on_add, cancel_known, on_cancel, trade_of, anonymous_trade, trade_resting,
  trade_known, on_trade, resolved_qty,
}
use flowlab.Chaos.{Doubles}
use flowlab.Chaos.FlashCrash.{
  push_snap, snapshot_top, find_hit, crash_hit, crash_mid, crash_match, crash_process,
  has_collapsed, aligned_count, crash_dir,
}
use flowlab.Chaos.FlashCrash.Book.{
  widen, with_level, crash_sub_entry, narrow, without_level, FlashCrashDetector, TopSnapshot,
  cached_mid, depth_in_band, depth_in_band_around, crash_add, crash_sub, crash_book_add,
  crash_book_sub, count_aggr, crash_trade, crash_event,
}
use flowlab.Chaos.MiniBook.{best_bid, best_ask}
use flowlab.Chaos.FlashCrash.Cached.{Cached, crash_add-Cached, crash_sub-Cached}

-- The tracker resolves to the sides 0 and 1 only.
abbrev pub Sides : OrderTracker → Type 0
Sides t = All (λ (e : ℕ × OrderMeta). e.1.side ≤ 1) t.orders

abbrev SidedUpdate : Option ResolvedBookUpdate → Type 0
SidedUpdate none = Unit
SidedUpdate (some u) = u.side ≤ 1

abbrev SidedTrade : Option ResolvedTrade → Type 0
SidedTrade none = Unit
SidedTrade (some t) = t.update.side ≤ 1

abbrev SidedMeta : Option OrderMeta → Type 0
SidedMeta none = Unit
SidedMeta (some m) = m.side ≤ 1

anonymous_update-SidedUpdate : (side price qty : ℕ) → SidedUpdate (anonymous_update side price qty)
unfolding anonymous_update
anonymous_update-SidedUpdate side price qty = elim (Bool-cases (leb side 1)) [
  | inl known ↦ rw known (ground (arith, known))
  | inr other ↦ rw other tt
]

get-SidedMeta :
    (k : ℕ) (m : Map OrderMeta)
    → All (λ (e : ℕ × OrderMeta). e.1.side ≤ 1) m
    → SidedMeta (Map.get k m)
unfolding Map.get
get-SidedMeta k [] a = tt
get-SidedMeta k ((j, v) ∷ m) a = elim (Bool-cases (j == k)) [
  | inl here ↦ rw here a.0
  | inr later ↦ rw later (get-SidedMeta k m a.1)
]

take_qty-Sides :
    (t : OrderTracker) (id : ℕ) (meta : OrderMeta) (qty : ℕ)
    → meta.side ≤ 1
    → Sides t
    → Sides (take_qty t id meta qty)
unfolding take_qty
take_qty-Sides t id meta qty s a = elim (Bool-cases (leb meta.qty qty)) [
  | inl whole ↦ rw whole (All-remove (λ (e : ℕ × OrderMeta). e.1.side ≤ 1) id t.orders a)
  | inr part ↦ rw part (All-insert (λ (e : ℕ × OrderMeta). e.1.side ≤ 1) id _ t.orders s a)
]

added-Sides :
    (t : OrderTracker) (e : Event) (o : Option ResolvedBookUpdate)
    → SidedUpdate o
    → Sides t
    → SidedUpdate (added t e o).0 × Sides (added t e o).1
unfolding added
added-Sides t e none s a = (tt, a)
added-Sides t e (some u) s a = elim (Bool-cases (e.order_id == 0)) [
  | inl anonymous ↦ rw anonymous (s, a)
  | inr named ↦
      rw named (s, All-insert (λ (e : ℕ × OrderMeta). e.1.side ≤ 1) e.order_id _ t.orders s a)
]

on_add-Sides :
    (t : OrderTracker) (e : Event) → Sides t → SidedUpdate (on_add t e).0 × Sides (on_add t e).1
unfolding on_add
on_add-Sides t e a = added-Sides t e _ (anonymous_update-SidedUpdate e.side e.price e.qty) a

cancel_known-Sides :
    (t : OrderTracker) (e : Event) (o : Option OrderMeta)
    → SidedMeta o
    → Sides t
    → SidedUpdate (cancel_known t e o).0 × Sides (cancel_known t e o).1
unfolding cancel_known
cancel_known-Sides t e (some meta) s a =
    (s, take_qty-Sides t e.order_id meta (resolved_qty meta.qty e.qty) s a)
cancel_known-Sides t e none s a = elim (Bool-cases (e.price == 0)) [
  | inl unpriced ↦ rw unpriced (tt, a)
  | inr priced ↦ rw priced (anonymous_update-SidedUpdate e.side e.price e.qty, a)
]

on_cancel-Sides :
    (t : OrderTracker) (e : Event)
    → Sides t
    → SidedUpdate (on_cancel t e).0 × Sides (on_cancel t e).1
unfolding on_cancel
on_cancel-Sides t e a = elim (Bool-cases (e.order_id == 0)) [
  | inl anonymous ↦ rw anonymous (anonymous_update-SidedUpdate e.side e.price e.qty, a)
  | inr named ↦ rw named (cancel_known-Sides t e _ (get-SidedMeta e.order_id t.orders a) a)
]

trade_of-SidedTrade :
    (o : Option ResolvedBookUpdate) (s : Option AggressorSide)
    → SidedUpdate o
    → SidedTrade (trade_of o s)
unfolding trade_of
trade_of-SidedTrade none s h = tt
trade_of-SidedTrade (some u) none h = tt
trade_of-SidedTrade (some u) (some s) h = h

anonymous_trade-SidedTrade : (e : Event) → SidedTrade (anonymous_trade e)
unfolding anonymous_trade
anonymous_trade-SidedTrade e =
    trade_of-SidedTrade _ _ (anonymous_update-SidedUpdate e.side e.price e.qty)

trade_resting-Sides :
    (t : OrderTracker) (e : Event) (meta : OrderMeta) (s : Option AggressorSide)
    → meta.side ≤ 1
    → Sides t
    → SidedTrade (trade_resting t e meta s).0 × Sides (trade_resting t e meta s).1
unfolding trade_resting
trade_resting-Sides t e meta none h a = (tt, a)
trade_resting-Sides t e meta (some s) h a =
    (h, take_qty-Sides t e.order_id meta (resolved_qty meta.qty e.qty) h a)

trade_known-Sides :
    (t : OrderTracker) (e : Event) (o : Option OrderMeta)
    → SidedMeta o
    → Sides t
    → SidedTrade (trade_known t e o).0 × Sides (trade_known t e o).1
unfolding trade_known
trade_known-Sides t e (some meta) h a = trade_resting-Sides t e meta _ h a
trade_known-Sides t e none h a = elim (Bool-cases (e.price == 0)) [
  | inl unpriced ↦ rw unpriced (tt, a)
  | inr priced ↦ rw priced (anonymous_trade-SidedTrade e, a)
]

on_trade-Sides :
    (t : OrderTracker) (e : Event) → Sides t → SidedTrade (on_trade t e).0 × Sides (on_trade t e).1
unfolding on_trade
on_trade-Sides t e a = elim (Bool-cases (e.order_id == 0)) [
  | inl anonymous ↦ rw anonymous (anonymous_trade-SidedTrade e, a)
  | inr named ↦ rw named (trade_known-Sides t e _ (get-SidedMeta e.order_id t.orders a) a)
]

two_sides : (side : ℕ) → side ≤ 1 → (side ≡ 0) ⊎ (side ≡ 1)
two_sides zero h = inl refl
two_sides (suc zero) h = inr refl
two_sides (suc (suc n)) h = absurd (omega arith)

module _ {F : Type 0} where
  -- The cache is true and the tracker's orders are on a side of the book.
  abbrev pub IsSound : FlashCrashDetector F → Type 0
  IsSound d = Cached d × Sides d.order_tracker

  crash_add-tracker :
      (d : FlashCrashDetector F) (side price qty : ℕ)
      → (crash_add d side price qty).order_tracker ≡ d.order_tracker
  unfolding crash_add widen with_level
  crash_add-tracker d side price qty = ground arith

  sub_entry-tracker :
      (d : FlashCrashDetector F) (side price qty : ℕ) (o : Option ℕ)
      → (crash_sub_entry d side price qty o).order_tracker ≡ d.order_tracker
  unfolding crash_sub_entry narrow without_level
  sub_entry-tracker d side price qty none = refl
  sub_entry-tracker d side price qty (some entry) = ground arith

  book_add-IsSound :
      (d : FlashCrashDetector F) (o : Option ResolvedBookUpdate)
      → SidedUpdate o
      → IsSound d
      → IsSound (crash_book_add d o)
  book_add-IsSound d none h (c, a) = (c, a)
  book_add-IsSound d (some u) h (c, a) = (
    crash_add-Cached d u.side u.price u.qty c,
    subst Sides (sym (crash_add-tracker d u.side u.price u.qty)) a,
  )

  book_sub-IsSound :
      (d : FlashCrashDetector F) (o : Option ResolvedBookUpdate)
      → SidedUpdate o
      → IsSound d
      → IsSound (crash_book_sub d o)
  unfolding crash_sub
  book_sub-IsSound d none h (c, a) = (c, a)
  book_sub-IsSound d (some u) h (c, a) = (
    crash_sub-Cached d u.side u.price u.qty (two_sides u.side h) c,
    subst Sides (sym (sub_entry-tracker d u.side u.price u.qty _)) a,
  )

  trade-IsSound :
      (d : FlashCrashDetector F) (o : Option ResolvedTrade)
      → SidedTrade o
      → IsSound d
      → IsSound (crash_trade d o)
  unfolding crash_trade
  trade-IsSound d none h s = s
  trade-IsSound d (some t) h s =
      book_sub-IsSound (count_aggr d t.aggressor) (some t.update) h (counted t.aggressor)
    where
      counted : (a : AggressorSide) → IsSound (count_aggr d a)
      counted AggressorSide.buy = unfold count_aggr in s
      counted AggressorSide.sell = unfold count_aggr in s

  event-IsSound :
      (d : FlashCrashDetector F) (e : Event) (t : EventType)
      → IsSound d
      → IsSound (crash_event d e t)
  unfolding crash_event
  event-IsSound d e EventType.order_add (c, a) =
      let (h, a') = on_add-Sides d.order_tracker e a in
      book_add-IsSound (record d { order_tracker = (on_add d.order_tracker e).1 })
        (on_add d.order_tracker e).0 h (c, a')
  event-IsSound d e EventType.order_cancel (c, a) =
      let (h, a') = on_cancel-Sides d.order_tracker e a in
      book_sub-IsSound (record d { order_tracker = (on_cancel d.order_tracker e).1 })
        (on_cancel d.order_tracker e).0 h (c, a')
  event-IsSound d e EventType.trade (c, a) =
      let (h, a') = on_trade-Sides d.order_tracker e a in
      trade-IsSound (record d { order_tracker = (on_trade d.order_tracker e).1 })
        (on_trade d.order_tracker e).0 h (c, a')
  event-IsSound d e EventType.order_modify s = s
  event-IsSound d e EventType.book_snapshot s = s

  snapshot-IsSound :
      (d : FlashCrashDetector F) (e : SequencedEvent) (o : Option ℕ)
      → IsSound d
      → IsSound (snapshot_top d e o)
  unfolding snapshot_top push_snap depth_in_band
  snapshot-IsSound d e none s = s
  snapshot-IsSound d e (some mid) s = elim (Bool-cases d.band_depth_valid) [
    | inl valid ↦ rw valid s
    | inr stale ↦ rw stale s
  ]

module _ {F : Type 0} (fl : Doubles F) where
  hit-IsSound :
      (d : FlashCrashDetector F) (e : SequencedEvent) (mid : ℕ) (o : Option TopSnapshot)
      → IsSound d
      → IsSound (crash_hit fl d e mid o).1
  unfolding crash_hit
  hit-IsSound d e mid none s = s
  hit-IsSound d e mid (some t) s =
      elim (Bool-cases (
        has_collapsed fl d t.depth_in_band (depth_in_band_around d t.best_bid t.best_ask)
        && leb d.min_aggr_trades (aligned_count d (crash_dir t mid)))) [
          | inl fire ↦ rw fire s
          | inr wait ↦ rw wait s
        ]

  mid-IsSound :
      (d : FlashCrashDetector F) (e : SequencedEvent) (o : Option ℕ)
      → IsSound d
      → IsSound (crash_mid fl d e o).1
  unfolding crash_mid
  mid-IsSound d e none s = s
  mid-IsSound d e (some mid) s = elim (Bool-cases (ltb e.seq d.refractory_until)) [
    | inl resting ↦ rw resting s
    | inr over ↦ rw over (hit-IsSound d e mid (find_hit d e mid d.snap_len 0) s)
  ]

  match-IsSound :
      (d : FlashCrashDetector F) (e : SequencedEvent) (o : Option EventType)
      → IsSound d
      → IsSound (crash_match fl d e o).1
  unfolding crash_match
  match-IsSound d e none s = s
  match-IsSound d e (some EventType.book_snapshot) s = snapshot-IsSound d e (cached_mid d) s
  match-IsSound d e (some t) s =
      let d' = crash_event (snapshot_top d e (cached_mid d)) e.event t in
      mid-IsSound d' e (cached_mid d') (
        event-IsSound (snapshot_top d e (cached_mid d)) e.event t
          (snapshot-IsSound d e (cached_mid d) s))

  -- the detector after some events
  abbrev pub crash_run : FlashCrashDetector F → List SequencedEvent → FlashCrashDetector F
  crash_run d [] = d
  crash_run d (e ∷ es) = crash_run (crash_process fl d e).1 es

  run-IsSound :
      (d : FlashCrashDetector F) (es : List SequencedEvent) → IsSound d → IsSound (crash_run d es)
  unfolding crash_process
  run-IsSound d [] s = s
  run-IsSound d (e ∷ es) s =
      run-IsSound (crash_process fl d e).1 es
        (match-IsSound d e (event_type_from_u8 e.event.event_type) s)

  -- After any events the two best prices that the detector keeps are those of its maps: the cache
  -- agrees with reading the maps, also where levels empty and where the cap prunes them. The detector
  -- starts with a true cache, a cap of at least one level and tracked orders on the sides 0 and 1
  -- only, as a new one does.
  pub crash_run-best :
      (d : FlashCrashDetector F) (es : List SequencedEvent)
      → IsSound d
      → ((crash_run d es).cached_bb ≡ best_bid (crash_run d es).book)
        × ((crash_run d es).cached_ba ≡ best_ask (crash_run d es).book)
  crash_run-best d es s = let (c, a) = run-IsSound d es s in (c.0, c.1)

-- ===== src/Chaos/Phantom/Cancels.antt =====
-- What a cancel reports and leaves in `PhantomLiquidityDetector` (chaos/src/phantom_liquidity.rs).
use flowlab.Prelude.{
  ℕ, ◌-◌, ◌≤◌, ◌<◌, ◌≡◌, ◌⊎◌, refl, true, Option, none, some, List, [], ◌∷◌, leb, ltb, ◌&&◌, arith,
  Bool-cases, inl, inr, subst, ◌≢◌, ◌==◌, ==_iff,
}
use flowlab.Event.{SequencedEvent}
use flowlab.Chaos.{ChaosEvent, Doubles}
use flowlab.Chaos.Phantom.{
  PhantomLiquidityDetector, on_add, shrunk_level, is_inside, phantom_flag, judge, forget_order,
  cancel_level, cancel_at, cancel_key, on_cancel,
}
use flowlab.Chaos.Phantom.Tracked.{
  same_key, key_of, Key, LevelTracker, Levels, get_level, fully_cancelled,
}
use flowlab.Chaos.Phantom.Bound.{}
use flowlab.Chaos.Phantom.Placed.{Placed, Knows}
use flowlab.Chaos.Phantom.Untraded.{Born, AllBorn, AllBorn-remove_level, AllBorn-set_level}

same_key-eq : (j k : Key) → same_key j k ≡ true → j ≡ k
same_key-eq j k h = ground arith

-- the level that a map finds was born
get_level-Born :
    (h : List SequencedEvent) (k : Key) (m : Levels) (t : LevelTracker)
    → get_level k m ≡ some t
    → AllBorn h m
    → Born k t.created_seq t.created_ts h
unfolding get_level
get_level-Born h k [] t g a = cc
get_level-Born h k ((j, v) ∷ m) t g a = elim (Bool-cases (same_key j k)) [
  | inl same ↦
      let found : some v ≡ some t = rw same at g in
      let v_t : v ≡ t = cc in
      subst (λ (i : Key). Born i t.created_seq t.created_ts h) (same_key-eq j k same)
        (subst (λ (w : LevelTracker). Born j w.created_seq w.created_ts h) v_t a.0)
  | inr other ↦
      let later : get_level k m ≡ some t = rw other at g in get_level-Born h k m t later a.1
]

module _ {F : Type 0} (fl : Doubles F) (gap time_gap floor : ℕ) where
  -- The cancel `e` takes its quantity at this level: at its own side and price if it names no order,
  -- and otherwise where the order that it names was placed.
  abbrev pub CancelsAt : Key → SequencedEvent → List SequencedEvent → Type 0
  CancelsAt k e h =
      ((e.event.order_id ≡ 0) × (k ≡ key_of e.event))
      ⊎ ((e.event.order_id ≢ 0) × Placed e.event.order_id k h)

  -- The cancel ends a level that was added as the flag says, with no trade at its side and price
  -- since; at least the floor was taken from it, and it lived no longer than a window that is on.
  abbrev pub IsPhantom : List SequencedEvent → SequencedEvent → ChaosEvent F → Type 0
  IsPhantom h e f =
      (k : Key) × CancelsAt k e h
      × Born k f.start_seq f.start_ts_ns h
      × (floor ≤ f.features.depth_removed)
      × (f.end_seq ≡ e.seq)
      × (((0 < gap) × (e.seq - f.start_seq ≤ gap))
          ⊎ ((0 < time_gap) × (e.event.ts - f.start_ts_ns ≤ time_gap)))

  abbrev pub Configured : PhantomLiquidityDetector → Type 0
  Configured d = (d.max_seq_gap ≡ gap) × (d.max_time_gap_ns ≡ time_gap) × (d.min_qty ≡ floor)

  abbrev pub Reports : List SequencedEvent → SequencedEvent → Option (ChaosEvent F) → Type 0
  Reports h e out = (f : ChaosEvent F) → out ≡ some f → IsPhantom h e f

  inside_window :
      (d : PhantomLiquidityDetector) (e : SequencedEvent) (t : LevelTracker)
      → Configured d
      → is_inside d e t ≡ true
      → ((0 < gap) × (e.seq - t.created_seq ≤ gap))
        ⊎ ((0 < time_gap) × (e.event.ts - t.created_ts ≤ time_gap))
  unfolding is_inside
  inside_window d e t (g, tg, q) h =
      elim (Bool-cases (ltb 0 d.max_seq_gap && leb (e.seq - t.created_seq) d.max_seq_gap)) [
        | inl by_seq ↦ inl (ground (arith, by_seq, g), ground (arith, by_seq, g))
        | inr not_seq ↦ inr (ground (arith, not_seq, h, tg), ground (arith, not_seq, h, tg))
      ]

  judge-Reports :
      (d : PhantomLiquidityDetector) (e : SequencedEvent) (h : List SequencedEvent) (k : Key)
      (t : LevelTracker)
      → Configured d
      → fully_cancelled t ≡ true
      → CancelsAt k e h
      → Born k t.created_seq t.created_ts h
      → Reports h e (judge fl d e t)
  unfolding judge phantom_flag fully_cancelled
  judge-Reports d e h k t c full at_level born f out =
      elim (Bool-cases (ltb t.added_qty d.min_qty)) [
        | inl little ↦ let no_flag : none ≡ some f = rw little at out in cc
        | inr enough ↦ elim (Bool-cases (is_inside d e t)) [
          | inl near ↦
              let made : some (phantom_flag fl d e t) ≡ some f = rw (enough, near) at out in
              let same : phantom_flag fl d e t ≡ f = cc in
              let floor_eq = c.2 in
              subst (IsPhantom h e) same (
                k,
                at_level,
                born,
                ground (arith, enough, full, floor_eq),
                refl,
                inside_window d e t c near,
              )
          | inr far ↦ let no_flag : none ≡ some f = rw (enough, far) at out in cc
        ]
      ]

  -- what a cancel leaves and reports
  abbrev pub Cancels :
      List SequencedEvent
      → SequencedEvent
      → Option (ChaosEvent F) × PhantomLiquidityDetector
      → Type 0
  Cancels h e (out, d) = Configured d × AllBorn h d.levels × Reports h e out

  cancel_level-Cancels :
      (d : PhantomLiquidityDetector) (e : SequencedEvent) (h : List SequencedEvent) (k : Key)
      (o : Option LevelTracker)
      → get_level k d.levels ≡ o
      → CancelsAt k e h
      → Configured d
      → AllBorn h d.levels
      → Cancels h e (cancel_level fl d e k o)
  unfolding cancel_level
  cancel_level-Cancels d e h k none g at_level c a = (c, a, λ f out. cc)
  cancel_level-Cancels d e h k (some t) g at_level c a =
      let u = shrunk_level t e.event.qty in
      let born = get_level-Born h k d.levels t g a in
      elim (Bool-cases (fully_cancelled u)) [
        | inl full ↦ rw full (
          c,
          AllBorn-remove_level h k d.levels a,
          judge-Reports d e h k u c full at_level (unfold shrunk_level in born),
        )
        | inr part ↦ rw part (
          c,
          AllBorn-set_level h k t u d.levels g (unfold shrunk_level in refl)
              (unfold shrunk_level in refl) a,
          λ f out. cc,
        )
      ]

  cancel_at-Cancels :
      (d : PhantomLiquidityDetector) (e : SequencedEvent) (h : List SequencedEvent) (o : Option Key)
      → ((k : Key) → o ≡ some k → CancelsAt k e h)
      → Configured d
      → AllBorn h d.levels
      → Cancels h e (cancel_at fl d e o)
  unfolding cancel_at
  cancel_at-Cancels d e h none at_level c a = (c, a, λ f out. cc)
  cancel_at-Cancels d e h (some k) at_level c a =
      cancel_level-Cancels d e h k (get_level k d.levels) refl (at_level k refl) c a

  cancel_key-CancelsAt :
      (d : PhantomLiquidityDetector) (e : SequencedEvent) (h : List SequencedEvent) (k : Key)
      → Knows h d.orders
      → cancel_key d e.event ≡ some k
      → CancelsAt k e h
  unfolding cancel_key
  cancel_key-CancelsAt d e h k knows found = elim (Bool-cases (e.event.order_id == 0)) [
    | inl anonymous ↦
        let own : some (key_of e.event) ≡ some k = rw anonymous at found in
        inl ((==_iff e.event.order_id 0).0 anonymous, cc)
    | inr named ↦
        let some_order : e.event.order_id ≢ 0 = λ zero_id. ground arith in
        inr (some_order, knows e.event.order_id k some_order (rw named at found))
  ]

  pub on_cancel-Cancels :
      (d : PhantomLiquidityDetector) (e : SequencedEvent) (h : List SequencedEvent)
      → Configured d
      → AllBorn h d.levels
      → Knows h d.orders
      → Cancels h e (on_cancel fl d e)
  unfolding on_cancel forget_order
  on_cancel-Cancels d e h c a knows =
      cancel_at-Cancels (forget_order d e.event) e h (cancel_key d e.event)
        (λ k found. cancel_key-CancelsAt d e h k knows found) c a

  -- A cancel forgets its order, whatever becomes of the level.
  cancel_level-orders :
      (d : PhantomLiquidityDetector) (e : SequencedEvent) (k : Key) (o : Option LevelTracker)
      → (cancel_level fl d e k o).1.orders ≡ d.orders
  unfolding cancel_level
  cancel_level-orders d e k none = refl
  cancel_level-orders d e k (some t) = ground arith

  cancel_at-orders :
      (d : PhantomLiquidityDetector) (e : SequencedEvent) (o : Option Key)
      → (cancel_at fl d e o).1.orders ≡ d.orders
  unfolding cancel_at
  cancel_at-orders d e none = refl
  cancel_at-orders d e (some k) = cancel_level-orders d e k (get_level k d.levels)

  pub on_cancel-orders :
      (d : PhantomLiquidityDetector) (e : SequencedEvent)
      → (on_cancel fl d e).1.orders ≡ (forget_order d e.event).orders
  unfolding on_cancel
  on_cancel-orders d e = cancel_at-orders (forget_order d e.event) e (cancel_key d e.event)

  pub on_add-Configured :
      (d : PhantomLiquidityDetector) (e : SequencedEvent) → Configured d → Configured (on_add d e)
  unfolding on_add
  on_add-Configured d e c = c

-- ===== src/Chaos/Phantom/Bound.antt =====
-- How many levels and orders `PhantomLiquidityDetector` (chaos/src/phantom_liquidity.rs) keeps.
use flowlab.Prelude.{
  ◌⊎◌, ℕ, ◌+◌, ◌≤◌, ◌<◌, ◌≡◌, refl, sym, max, true, false, Option, none, some, List, [], ◌∷◌, leb,
  ltb, if◌then◌else◌, length, arith, Bool-cases, inl, inr, Any, subst,
}
use flowlab.Event.{EventType, SequencedEvent, event_type_from_u8}
use flowlab.Chaos.{Doubles}
use flowlab.Chaos.Phantom.{
  PhantomLiquidityDetector, tracked_levels, evict_oldest, fresh_level, grown_level, on_add,
  shrunk_level, forget_order, cancel_level, cancel_at, on_cancel, modified, phantom_match,
  phantom_process,
}
use flowlab.Chaos.Phantom.Tracked.{
  Key, same_key, key_of, LevelTracker, Levels, get_level, remove_level, set_level, upsert_level,
  oldest_from, fully_cancelled,
}

length-upsert_level :
    (k : Key) (modify : LevelTracker → LevelTracker) (u : LevelTracker) (m : Levels)
    → length (upsert_level k modify u m) ≤ length m + 1
unfolding upsert_level
length-upsert_level k modify u [] = omega arith
length-upsert_level k modify u ((j, t) ∷ m) = ground (arith, length-upsert_level k modify u m)

length-remove_level : (k : Key) (m : Levels) → length (remove_level k m) ≤ length m
unfolding remove_level
length-remove_level k [] = omega arith
length-remove_level k ((j, t) ∷ m) = ground (arith, length-remove_level k m)

length-set_level : (k : Key) (u : LevelTracker) (m : Levels) → length (set_level k u m) ≡ length m
unfolding set_level
length-set_level k u [] = refl
length-set_level k u ((j, t) ∷ m) = ground (arith, length-set_level k u m)

-- the key of some level
abbrev HasKey : Key → Levels → Type 0
HasKey k m = Any (λ (e : Key × LevelTracker). same_key e.0 k ≡ true) m

length-remove_level_key : (k : Key) (m : Levels) → HasKey k m → length (remove_level k m) < length m
unfolding remove_level
length-remove_level_key k [] h = elim h [ ]
length-remove_level_key k ((j, t) ∷ m) (inl same) = rw same (omega (arith, length-remove_level k m))
length-remove_level_key k ((j, t) ∷ m) (inr later) =
    ground (arith, length-remove_level_key k m later)

same_key_self : (k : Key) → same_key k k ≡ true
same_key_self k = ground arith

-- The oldest level is one of the map's.
abbrev IsOf : Key → Levels → Key → Type 0
IsOf k m o = (o ≡ k) ⊎ HasKey o m

oldest_from-older :
    (k : Key) (seq : ℕ) (j : Key) (t : LevelTracker) (m : Levels)
    → ltb t.created_seq seq ≡ true
    → oldest_from k seq ((j, t) ∷ m) ≡ oldest_from j t.created_seq m
unfolding oldest_from
oldest_from-older k seq j t m older = rw older

oldest_from-younger :
    (k : Key) (seq : ℕ) (j : Key) (t : LevelTracker) (m : Levels)
    → ltb t.created_seq seq ≡ false
    → oldest_from k seq ((j, t) ∷ m) ≡ oldest_from k seq m
unfolding oldest_from
oldest_from-younger k seq j t m younger = rw younger

oldest_from-IsOf : (k : Key) (seq : ℕ) (m : Levels) → IsOf k m (oldest_from k seq m)
unfolding oldest_from
oldest_from-IsOf k seq [] = inl refl
oldest_from-IsOf k seq ((j, t) ∷ m) = elim (Bool-cases (ltb t.created_seq seq)) [
  | inl older ↦
      subst (IsOf k ((j, t) ∷ m)) (sym (oldest_from-older k seq j t m older))
        (elim (oldest_from-IsOf j t.created_seq m) [
          | inl at_j ↦ inr (inl (subst (λ o. same_key j o ≡ true) (sym at_j) (same_key_self j)))
          | inr later ↦ inr (inr later)
        ])
  | inr younger ↦
      subst (IsOf k ((j, t) ∷ m)) (sym (oldest_from-younger k seq j t m younger))
        (elim (oldest_from-IsOf k seq m) [ inl at_k ↦ inl at_k | inr later ↦ inr (inr later) ])
]

length-evict_oldest : (m : Levels) → 0 < length m → length (evict_oldest m) < length m
unfolding evict_oldest
length-evict_oldest [] h = absurd (omega arith)
length-evict_oldest ((k, t) ∷ m) h =
    length-remove_level_key (oldest_from k t.created_seq m) ((k, t) ∷ m)
      (elim (oldest_from-IsOf k t.created_seq m) [
        | inl at_k ↦ inl (subst (λ o. same_key k o ≡ true) (sym at_k) (same_key_self k))
        | inr later ↦ inr later
      ])

-- The cap of a detector: an add makes room before it inserts, so a cap of 0 counts as 1.
abbrev pub Capped : PhantomLiquidityDetector → ℕ → Type 0
Capped d cap = (d.max_tracked ≡ cap) × (tracked_levels d ≤ max cap 1)

length-evict_nil : length (evict_oldest []) ≡ 0
unfolding evict_oldest
length-evict_nil = refl

length-kept :
    (m : Levels) (cap : ℕ)
    → length m ≤ max cap 1
    → length (if leb cap (length m) then evict_oldest m else m) < max cap 1
length-kept [] cap h = ground (arith, length-evict_nil)
length-kept (e ∷ m) cap h = ground (arith, length-evict_oldest (e ∷ m))

on_add-Capped :
    (d : PhantomLiquidityDetector) (e : SequencedEvent) (cap : ℕ)
    → Capped d cap
    → Capped (on_add d e) cap
unfolding on_add tracked_levels
on_add-Capped d e cap (c, h) =
    let kept =
      length-kept d.levels d.max_tracked (subst (λ k. length d.levels ≤ max k 1) (sym c) h) in
    (
      c,
      omega (
        arith,
        c,
        kept,
        length-upsert_level (key_of e.event) (grown_level e) (fresh_level e)
            (if leb d.max_tracked (length d.levels) then evict_oldest d.levels else d.levels),
      ),
    )

module _ {F : Type 0} (fl : Doubles F) where
  cancel_level-Capped :
      (d : PhantomLiquidityDetector) (e : SequencedEvent) (k : Key) (o : Option LevelTracker)
      (cap : ℕ)
      → Capped d cap
      → Capped (cancel_level fl d e k o).1 cap
  unfolding cancel_level tracked_levels
  cancel_level-Capped d e k none cap w = w
  cancel_level-Capped d e k (some t) cap (c, h) =
      elim (Bool-cases (fully_cancelled (shrunk_level t e.event.qty))) [
        | inl full ↦ rw full (c, omega (arith, h, length-remove_level k d.levels))
        | inr part ↦
            rw part (c, omega (arith, h, length-set_level k (shrunk_level t e.event.qty) d.levels))
      ]

  cancel_at-Capped :
      (d : PhantomLiquidityDetector) (e : SequencedEvent) (o : Option Key) (cap : ℕ)
      → Capped d cap
      → Capped (cancel_at fl d e o).1 cap
  unfolding cancel_at
  cancel_at-Capped d e none cap w = w
  cancel_at-Capped d e (some k) cap w = cancel_level-Capped d e k (get_level k d.levels) cap w

  on_cancel-Capped :
      (d : PhantomLiquidityDetector) (e : SequencedEvent) (cap : ℕ)
      → Capped d cap
      → Capped (on_cancel fl d e).1 cap
  unfolding on_cancel forget_order tracked_levels
  on_cancel-Capped d e cap w = cancel_at-Capped (forget_order d e.event) e _ cap w

  match-Capped :
      (d : PhantomLiquidityDetector) (e : SequencedEvent) (t : Option EventType) (cap : ℕ)
      → Capped d cap
      → Capped (phantom_match fl d e t).1 cap
  unfolding phantom_match modified tracked_levels
  match-Capped d e (some EventType.order_add) cap w = on_add-Capped d e cap w
  match-Capped d e (some EventType.order_cancel) cap w = on_cancel-Capped d e cap w
  match-Capped d e (some EventType.order_modify) cap w =
      on_add-Capped (on_cancel fl d e).1 e cap (on_cancel-Capped d e cap w)
  match-Capped d e (some EventType.trade) cap (c, h) =
      (c, omega (arith, h, length-remove_level (key_of e.event) d.levels))
  match-Capped d e (some EventType.book_snapshot) cap w = w
  match-Capped d e none cap w = w

  -- the detector after some events
  abbrev pub phantom_run : PhantomLiquidityDetector → List SequencedEvent → PhantomLiquidityDetector
  phantom_run d [] = d
  phantom_run d (e ∷ es) = phantom_run (phantom_process fl d e).1 es

  -- After any events a detector with at most `max_tracked` levels (one, for a cap of 0) still has no
  -- more.
  pub phantom_run-Capped :
      (d : PhantomLiquidityDetector) (es : List SequencedEvent) (cap : ℕ)
      → Capped d cap
      → Capped (phantom_run d es) cap
  unfolding phantom_process
  phantom_run-Capped d [] cap w = w
  phantom_run-Capped d (e ∷ es) cap w =
      phantom_run-Capped (phantom_process fl d e).1 es cap
        (match-Capped d e (event_type_from_u8 e.event.event_type) cap w)

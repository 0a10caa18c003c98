-- ===== src/Chaos/Phantom/Untraded.antt =====
-- Where the levels of `PhantomLiquidityDetector` (chaos/src/phantom_liquidity.rs) come from.
use flowlab.Prelude.{
  length, ℕ, ◌≡◌, ◌⊎◌, refl, sym, ap, ◌∙◌, true, Option, some, List, [], ◌∷◌, leb, arith,
  Bool-cases, inl, inr, All, All-map, subst,
}
use flowlab.Event.{EventType, SequencedEvent, event_type_from_u8}
use flowlab.Chaos.Phantom.{PhantomLiquidityDetector, evict_oldest, fresh_level, grown_level, on_add}
use flowlab.Chaos.Phantom.Tracked.{
  Key, same_key, key_of, LevelTracker, Levels, get_level, remove_level, set_level, upsert_level,
  oldest_from,
}

-- the type of an event
abbrev pub type_of : SequencedEvent → Option EventType
type_of e = event_type_from_u8 e.event.event_type

abbrev pub Adds : SequencedEvent → Type 0
Adds e = (type_of e ≡ some EventType.order_add) ⊎ (type_of e ≡ some EventType.order_modify)

-- a trade that carries the side and price of the level
abbrev pub TradesAt : Key → SequencedEvent → Type 0
TradesAt k e = (type_of e ≡ some EventType.trade) × (same_key k (key_of e.event) ≡ true)

-- In a history, the newest event first: an add at the level with that number and time, and no trade
-- at the level since.
abbrev pub Born : Key → ℕ → ℕ → List SequencedEvent → Type 0
Born k seq ts [] = ⊥
Born k seq ts (e ∷ h) =
    (Adds e × (same_key k (key_of e.event) ≡ true) × (e.seq ≡ seq) × (e.event.ts ≡ ts))
    ⊎ ((¬ TradesAt k e) × Born k seq ts h)

abbrev pub BornLevel : List SequencedEvent → Key × LevelTracker → Type 0
BornLevel h (k, t) = Born k t.created_seq t.created_ts h

abbrev pub AllBorn : List SequencedEvent → Levels → Type 0
AllBorn h m = All (BornLevel h) m

pub AllBorn-remove_level :
    (h : List SequencedEvent) (k : Key) (m : Levels) → AllBorn h m → AllBorn h (remove_level k m)
unfolding remove_level
AllBorn-remove_level h k [] a = tt
AllBorn-remove_level h k ((j, t) ∷ m) a = elim (Bool-cases (same_key j k)) [
  | inl same ↦ rw same (AllBorn-remove_level h k m a.1)
  | inr other ↦ rw other (a.0, AllBorn-remove_level h k m a.1)
]

AllBorn-evict_oldest :
    (h : List SequencedEvent) (m : Levels) → AllBorn h m → AllBorn h (evict_oldest m)
unfolding evict_oldest
AllBorn-evict_oldest h [] a = tt
AllBorn-evict_oldest h ((k, t) ∷ m) a =
    AllBorn-remove_level h (oldest_from k t.created_seq m) ((k, t) ∷ m) a

pub AllBorn-set_level :
    (h : List SequencedEvent) (k : Key) (t u : LevelTracker) (m : Levels)
    → get_level k m ≡ some t
    → u.created_seq ≡ t.created_seq
    → u.created_ts ≡ t.created_ts
    → AllBorn h m
    → AllBorn h (set_level k u m)
unfolding get_level set_level
AllBorn-set_level h k t u [] g s c a = tt
AllBorn-set_level h k t u ((j, v) ∷ m) g s c a = elim (Bool-cases (same_key j k)) [
  | inl same ↦
      let found : some v ≡ some t = rw same at g in
      let v_t : v ≡ t = cc in
      rw same (
        subst (λ n. Born j n u.created_ts h) (ap (λ (w : LevelTracker). w.created_seq) v_t ∙ sym s)
            (subst (λ n. Born j v.created_seq n h)
              (ap (λ (w : LevelTracker). w.created_ts) v_t ∙ sym c) a.0),
        a.1,
      )
  | inr other ↦
      let later : get_level k m ≡ some t = rw other at g in
      rw other (a.0, AllBorn-set_level h k t u m later s c a.1)
]

-- A further event that is no trade keeps every level's birth.
pub AllBorn-next :
    (e : SequencedEvent) (h : List SequencedEvent) (m : Levels)
    → ¬ (type_of e ≡ some EventType.trade)
    → AllBorn h m
    → AllBorn (e ∷ h) m
AllBorn-next e h m no_trade =
    All-map (BornLevel h) (BornLevel (e ∷ h)) m (λ l b. inr (λ trade. no_trade trade.0, b))

-- A trade keeps that of the levels it does not name.
pub AllBorn-trade :
    (e : SequencedEvent) (h : List SequencedEvent) (m : Levels)
    → AllBorn h m
    → AllBorn (e ∷ h) (remove_level (key_of e.event) m)
unfolding remove_level
AllBorn-trade e h [] a = tt
AllBorn-trade e h ((j, t) ∷ m) a = elim (Bool-cases (same_key j (key_of e.event))) [
  | inl same ↦ rw same (AllBorn-trade e h m a.1)
  | inr other ↦
      let elsewhere : ¬ TradesAt j e = λ trade. cc in
      rw other (inr (elsewhere, a.0), AllBorn-trade e h m a.1)
]

AllBorn-upsert_level :
    (e : SequencedEvent) (h : List SequencedEvent) (m : Levels)
    → Adds e
    → AllBorn (e ∷ h) m
    → AllBorn (e ∷ h) (upsert_level (key_of e.event) (grown_level e) (fresh_level e) m)
unfolding upsert_level grown_level fresh_level
AllBorn-upsert_level e h [] adds a = (inl (adds, same_key_self (key_of e.event), refl, refl), tt)
  where
    same_key_self : (k : Key) → same_key k k ≡ true
    same_key_self k = ground arith
AllBorn-upsert_level e h ((j, t) ∷ m) adds a = elim (Bool-cases (same_key j (key_of e.event))) [
  | inl same ↦ rw same (a.0, a.1)
  | inr other ↦ rw other (a.0, AllBorn-upsert_level e h m adds a.1)
]

pub on_add-AllBorn :
    (d : PhantomLiquidityDetector) (e : SequencedEvent) (h : List SequencedEvent)
    → Adds e
    → AllBorn (e ∷ h) d.levels
    → AllBorn (e ∷ h) (on_add d e).levels
unfolding on_add
on_add-AllBorn d e h adds a =
    AllBorn-upsert_level e h _ adds (elim (Bool-cases (leb d.max_tracked (length d.levels))) [
      | inl full ↦ rw full (AllBorn-evict_oldest (e ∷ h) d.levels a)
      | inr room ↦ rw room a
    ])

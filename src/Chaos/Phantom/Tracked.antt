-- ===== src/Chaos/Phantom/Tracked.antt =====
-- `LevelTracker` and the map of levels of chaos/src/phantom_liquidity.rs. The map is an association
-- list; where two levels have the same `created_seq`, the list's order stands for the hash map's.
use flowlab.Prelude.{
  ℕ, Bool, Option, none, some, List, [], ◌∷◌, ltb, leb, ◌==◌, ◌&&◌, if◌then◌else◌,
}
use flowlab.Event.{Event}

-- (side, price)
abbrev pub Key : Type 0
Key = ℕ × ℕ

abbrev pub same_key : Key → Key → Bool
same_key j k = j.0 == k.0 && j.1 == k.1

abbrev pub key_of : Event → Key
key_of e = (e.side, e.price)

pub record LevelTracker : Type 0 where
  pub created_seq : ℕ
  pub created_ts : ℕ
  pub added_qty : ℕ
  pub cancelled_qty : ℕ
  pub order_count : ℕ
  pub cancel_count : ℕ

unfoldable pub fully_cancelled : LevelTracker → Bool
fully_cancelled t = leb t.added_qty t.cancelled_qty && leb t.order_count t.cancel_count

abbrev pub Levels : Type 0
Levels = List (Key × LevelTracker)

unfoldable pub get_level : Key → Levels → Option LevelTracker
get_level k [] = none
get_level k ((j, t) ∷ m) = if same_key j k then some t else get_level k m

unfoldable pub remove_level : Key → Levels → Levels
remove_level k [] = []
remove_level k ((j, t) ∷ m) =
    let rest = remove_level k m in if same_key j k then rest else (j, t) ∷ rest

-- a write through `get_mut`
unfoldable pub set_level : Key → LevelTracker → Levels → Levels
set_level k u [] = []
set_level k u ((j, t) ∷ m) =
    let rest = set_level k u m in if same_key j k then (j, u) ∷ m else (j, t) ∷ rest

-- `entry(key).and_modify(…).or_insert(…)`
unfoldable pub upsert_level : Key → (LevelTracker → LevelTracker) → LevelTracker → Levels → Levels
upsert_level k modify fresh [] = (k, fresh) ∷ []
upsert_level k modify fresh ((j, t) ∷ m) =
    let rest = upsert_level k modify fresh m in
    if same_key j k then (j, modify t) ∷ m else (j, t) ∷ rest

-- `iter().min_by_key(|(_, t)| t.created_seq)`: the first of the smallest
unfoldable pub oldest_from : Key → ℕ → Levels → Key
oldest_from k seq [] = k
oldest_from k seq ((j, t) ∷ m) =
    let here = oldest_from j t.created_seq m in
    let there = oldest_from k seq m in if ltb t.created_seq seq then here else there

-- ===== src/Map.antt =====
-- `BTreeMap` and `HashMap` with unsigned keys, as association lists in the order of their keys.
-- The program iterates over a `HashMap` only where the order cannot show, so the order stands for
-- that of either map; `BTreeMap` documents it.
pub mod Laws
use flowlab.Prelude.{
  ℕ, ◌<◌, Bool, true, false, Option, none, some, List, [], ◌∷◌, All, ltb, ◌==◌, if◌then◌else◌, map,
}

abbrev pub Map {ℓ} : Type ℓ → Type ℓ
Map V = List (ℕ × V)

module _ {ℓ} {V : Type ℓ} where
  unfoldable pub get : ℕ → Map V → Option V
  get k [] = none
  get k ((j, v) ∷ m) = if j == k then some v else get k m

  unfoldable pub insert : ℕ → V → Map V → Map V
  insert k v [] = (k, v) ∷ []
  insert k v ((j, w) ∷ m) =
      let rest = insert k v m in
      if ltb k j then (k, v) ∷ (j, w) ∷ m else if j == k then (k, v) ∷ m else (j, w) ∷ rest

  unfoldable pub remove : ℕ → Map V → Map V
  remove k [] = []
  remove k ((j, v) ∷ m) = if j == k then remove k m else (j, v) ∷ remove k m

  -- `keys().next()`, `keys().next_back()`, `iter().next()`
  unfoldable pub first : Map V → Option (ℕ × V)
  first [] = none
  first (e ∷ m) = some e

  unfoldable pub last : Map V → Option (ℕ × V)
  last [] = none
  last (e ∷ []) = some e
  last (e ∷ f ∷ m) = last (f ∷ m)

  unfoldable pub values : Map V → List V
  values [] = []
  values ((j, v) ∷ m) = v ∷ values m

  -- the keys ascend
  abbrev pub IsOrdered : Map V → Type 0
  IsOrdered [] = Unit
  IsOrdered ((j, v) ∷ m) = All (λ (e : ℕ × V). j < e.0) m × IsOrdered m

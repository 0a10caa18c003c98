-- ===== src/Hot/Grid/Live.antt =====
-- What the array code does to the slice of the levels in use.
use flowlab.Prelude.{
  ℕ, suc, ◌+◌, ◌-◌, ◌≤◌, ◌<◌, false, ◌≡◌, ap, ◌∙◌, none, some, ltb, arith, length, get_elem?, set,
  take, insert_at, remove_at, get_elem?-take, get_elem?_beyond, get_elem?-eq-get_or, length-take,
  length-set, length-copy_within, shift_up, shift_down, take-set_last, take-set_beyond,
  remove_at_last, ap₂, copy_within, u32_mod, Bool-cases, inl, inr, sym,
}
use native.Mathlib.Numerals.{add-one}
use flowlab.Ladder.{Level}
use flowlab.Hot.Grid.{Grid, default_level, level_at, live, open_slot, remove_level}

-- The array has its full length, and the count stays inside it.
pub record Fits (max_levels : ℕ) (g : Grid) : Type 0 where
  pub full : length g.levels ≡ max_levels
  pub within : g.count ≤ max_levels
  pub small : max_levels < u32_mod

module _ {max_levels : ℕ} {g : Grid} (f : Fits max_levels g) where
  pub length-live : length (live g) ≡ g.count
  length-live = omega (arith, length-take g.count g.levels)

  pub get_elem?-live : (i : ℕ) → i < g.count → get_elem? (live g) i ≡ some (level_at g.levels i)
  get_elem?-live i h =
      get_elem?-take g.count i g.levels h
      ∙ get_elem?-eq-get_or g.levels i default_level (omega arith)

  pub get_elem?-live_beyond : (i : ℕ) → g.count ≤ i → get_elem? (live g) i ≡ none
  get_elem?-live_beyond i h = get_elem?_beyond i (live g) (omega (arith, length-live))

  -- Opening a slot and writing there inserts into the slice.
  pub live-open_slot :
      (pos : ℕ) (v : Level)
      → pos ≤ g.count
      → g.count < max_levels
      → take (suc g.count) (set (open_slot g.levels g.count pos) pos v) ≡ insert_at pos v (live g)
  unfolding open_slot
  live-open_slot pos v h room = elim (Bool-cases (ltb pos g.count)) [
    | inl lt ↦
        rw (lt, add-one)
          (shift_up pos (g.count - pos) g.count g.levels v (omega arith) (omega arith))
    | inr ge ↦ rw (ge, pos_last ge h) (take-set_last g.count g.levels v (omega arith))
  ]
    where
      pos_last : ltb pos g.count ≡ false → pos ≤ g.count → pos ≡ g.count
      pos_last ge h = ground arith

  -- Removing a level takes it out of the slice.
  pub live-remove_level : (i : ℕ) → i < g.count → live (remove_level g i) ≡ remove_at i (live g)
  unfolding remove_level
  live-remove_level i h = elim (Bool-cases (ltb i (g.count - 1))) [
    | inl lt ↦
        rw (lt, add-one)
          (shift_down i (g.count - i - 1) (g.count - 1) g.levels default_level (ground arith)
              (omega arith)
            ∙ whole)
    | inr ge ↦
        rw (ge, take-set_beyond (g.count - 1) (g.count - 1) g.levels default_level (omega arith))
          (sym (remove_at_last (g.count - 1) g.levels (omega arith)) ∙ last_at ge)
  ]
    where
      last_suc : suc (g.count - 1) ≡ g.count
      last_suc = omega arith

      is_last : ltb i (g.count - 1) ≡ false → g.count - 1 ≡ i
      is_last ge = ground arith

      whole : remove_at i (take (suc (g.count - 1)) g.levels) ≡ remove_at i (live g)
      whole = ap (λ c. remove_at i (take c g.levels)) last_suc

      last_at :
          ltb i (g.count - 1) ≡ false
          → remove_at (g.count - 1) (take (suc (g.count - 1)) g.levels) ≡ remove_at i (live g)
      last_at ge = ap₂ (λ j c. remove_at j (take c g.levels)) (is_last ge) last_suc

  pub remove_level-Fits : (i : ℕ) → i < g.count → Fits max_levels (remove_level g i)
  unfolding remove_level
  remove_level-Fits i h = ground (
    arith,
    length-copy_within g.levels (i + 1) i (g.count - i - 1),
    length-set g.levels (g.count - 1) default_level,
    length-set (copy_within g.levels (i + 1) i (g.count - i - 1)) (g.count - 1) default_level,
  )

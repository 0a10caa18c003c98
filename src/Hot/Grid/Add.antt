-- ===== src/Hot/Grid/Add.antt =====
-- `add_order` on the level array: it merges into the level of the price, opens a level for a new
-- price, or refuses when the array is full.
use flowlab.Prelude.{
  ℕ, suc, ◌+◌, ◌-◌, ◌%◌, ◌≤◌, ◌<◌, Bool, true, false, ◌≡◌, refl, ap, Option, none, some, ltb, leb,
  ◌==◌, ◌&&◌, ◌||◌, if◌then◌else◌, arith, Bool-cases, inl, inr, set, insert_at, u32_mod, length-set,
  length-copy_within,
}
use flowlab.Ladder.{Level, lookup}
use flowlab.Ladder.Position.{position, position-le}
use flowlab.Ladder.Update.{lookup-insert_at, insert_at-IsSorted}
use flowlab.Hot.Grid.{Grid, level_at, live, open_slot, add_level, merge_order, fresh_level}
use flowlab.Hot.Grid.Live.{Fits, length-live, live-open_slot, get_elem?-live, get_elem?-live_beyond}
use flowlab.Hot.Grid.Laws.{IsValid, At, seen, lookup-write_at, write_at-IsValid}
use flowlab.Hot.Grid.Deduct.{Updates, is_some}

-- The level after an order of `qty` at `price` joined it.
abbrev pub joined : ℕ → ℕ → Option Level → Level
joined price qty none = fresh_level price qty
joined price qty (some l) = merge_order l qty

-- Whether the side takes an order at a price.
abbrev pub takes : ℕ → Grid → Option Level → Bool
takes max_levels g level = is_some level || ltb g.count max_levels

abbrev pub level_after : ℕ → ℕ → ℕ → Grid → Option Level → Option Level
level_after max_levels price qty g level =
    if takes max_levels g level then some (joined price qty level) else level

module _ {max_levels : ℕ} {d : Bool} {g : Grid} (v : IsValid max_levels d g) (p qty : ℕ) where
  abbrev pos : ℕ
  pos = position d p (live g)

  -- the test of `add_order` for a level that is there
  abbrev there : Bool
  there = ltb pos g.count && (level_at g.levels pos).price == p

  lookup-there : there ≡ true → lookup p (live g) ≡ some (level_at g.levels pos)
  lookup-there h = ground (arith, seen v p, get_elem?-live v.fits pos)

  lookup_not_there : there ≡ false → lookup p (live g) ≡ none
  lookup_not_there h =
      ground (arith, seen v p, get_elem?-live v.fits pos, get_elem?-live_beyond v.fits pos)

  At-there : there ≡ true → At d p g pos (level_at g.levels pos)
  At-there h = record { place = refl; inside = ground arith; holds = refl; priced = ground arith }

  -- the side with a new level
  abbrev opened : Grid
  opened = record {
    levels = set (open_slot g.levels g.count pos) pos (fresh_level p qty);
    count = (g.count + 1) % u32_mod;
  }

  pos_in : pos ≤ g.count
  pos_in = omega (arith, position-le d p (live g), length-live v.fits)

  live-opened : g.count < max_levels → live opened ≡ insert_at pos (fresh_level p qty) (live g)
  live-opened room = rw (counted room) (live-open_slot v.fits pos (fresh_level p qty) pos_in room)
    where
      counted : g.count < max_levels → (g.count + 1) % u32_mod ≡ suc g.count
      counted r = omega (arith, v.fits.small)

  opened-Fits : g.count < max_levels → Fits max_levels opened
  unfolding open_slot
  opened-Fits room = record {
    full = ground (
      arith,
      length-set (open_slot g.levels g.count pos) pos (fresh_level p qty),
      length-copy_within g.levels pos (pos + 1) (g.count - pos),
      pos_in,
      v.fits.full,
    );
    within = omega (arith, v.fits.small);
    small = v.fits.small;
  }

  opened-IsValid : there ≡ false → g.count < max_levels → IsValid max_levels d opened
  opened-IsValid h room = record {
    fits = opened-Fits room;
    sorted =
        rw (live-opened room)
          (insert_at-IsSorted d p (fresh_level p qty) refl (live g) v.sorted (lookup_not_there h));
  }

  -- On a valid side `add_order` answers whether it takes the order: the price has a level or the
  -- array has room. If it does, the level of the price holds the order (merged, or fresh with a
  -- count of one), else it is as before; every other price keeps its level, and the side stays valid.
  pub add_level-Updates :
      Updates max_levels d p g
        (takes max_levels g (lookup p (live g)))
        (level_after max_levels p qty g (lookup p (live g)))
        (add_level max_levels g d p qty)
  unfolding add_level
  add_level-Updates = elim (Bool-cases there) [
    | inl h ↦
        rw (h, lookup-there h)
          (record {
            flagged = refl;
            valid =
                write_at-IsValid v (At-there h) (merge_order (level_at g.levels pos) qty)
                  (ground (arith, h));
            levels =
                lookup-write_at v (At-there h) (merge_order (level_at g.levels pos) qty)
                  (ground (arith, h));
          })
    | inr h ↦ elim (Bool-cases (leb max_levels g.count)) [
      | inl full ↦
          rw (h, full, lookup_not_there h)
            (record {
              flagged = ground arith;
              valid = v;
              levels = λ q. ground (arith, lookup_not_there h);
            })
      | inr room ↦
          rw (h, room, lookup_not_there h)
            (record {
              flagged = ground arith;
              valid = opened-IsValid h (ground arith);
              levels = λ q. ground (
                arith,
                ap (lookup q) (live-opened (ground arith)),
                lookup-insert_at d p (fresh_level p qty) refl q (live g),
              );
            })
    ]
  ]

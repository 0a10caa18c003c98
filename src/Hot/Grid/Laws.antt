-- ===== src/Hot/Grid/Laws.antt =====
-- What the array code does to every price, and that a side stays a full, sorted array.
use flowlab.Prelude.{
  ℕ, ◌<◌, Bool, ◌≡◌, ap, ◌∙◌, none, some, ◌==◌, if◌then◌else◌, arith, get_elem?, get_or-set_self,
  set, take-set, length-set, sym,
}
use flowlab.Ladder.{Level, IsSorted, lookup}
use flowlab.Ladder.Position.{position, at_position, lookup-position}
use flowlab.Ladder.Update.{
  lookup-set, position-set, set-IsSorted, lookup-remove_at, remove_at-IsSorted,
}
use flowlab.Hot.Grid.{Grid, default_level, level_at, live, find_level, remove_level}
use flowlab.Hot.Grid.Live.{
  Fits, get_elem?-live, get_elem?-live_beyond, live-remove_level, remove_level-Fits,
}

pub record IsValid (max_levels : ℕ) (is_bid : Bool) (g : Grid) : Type 0 where
  pub fits : Fits max_levels g
  pub sorted : IsSorted is_bid (live g)

-- The code holds the index of the level at a price.
pub record At (is_bid : Bool) (price : ℕ) (g : Grid) (i : ℕ) (l : Level) : Type 0 where
  pub place : i ≡ position is_bid price (live g)
  pub inside : i < g.count
  pub holds : level_at g.levels i ≡ l
  pub priced : l.price ≡ price

abbrev pub write_at : Grid → ℕ → Level → Grid
write_at g i v = record g { levels = set g.levels i v }

module _ {max_levels : ℕ} {d : Bool} {g : Grid} (v : IsValid max_levels d g) where
  -- The test of `find_level` and of `add_order`, at the place that `partition_point` gives.
  pub seen :
      (p : ℕ) → lookup p (live g) ≡ at_position p (get_elem? (live g) (position d p (live g)))
  seen p = lookup-position d p (live g) v.sorted

  pub find_level-found :
      (p i : ℕ)
      → find_level g.levels g.count p d ≡ some i
      → At d p g i (level_at g.levels i) × (lookup p (live g) ≡ some (level_at g.levels i))
  unfolding find_level
  find_level-found p i e = ground (arith, seen p, get_elem?-live v.fits (position d p (live g)))

  pub find_level-missing :
      (p : ℕ) → find_level g.levels g.count p d ≡ none → lookup p (live g) ≡ none
  unfolding find_level
  find_level-missing p e = ground (
    arith,
    seen p,
    get_elem?-live v.fits (position d p (live g)),
    get_elem?-live_beyond v.fits (position d p (live g)),
  )

  module _ {p i : ℕ} {l : Level} (a : At d p g i l) where
    pub At-live : get_elem? (live g) (position d p (live g)) ≡ some l
    At-live = ground (arith, get_elem?-live v.fits i, a.place, a.holds)

    module _ (w : Level) (same : w.price ≡ p) where
      live-write_at : live (write_at g i w) ≡ set (live g) (position d p (live g)) w
      live-write_at = rw (← a.place) (take-set g.count i g.levels w)

      pub lookup-write_at :
          (q : ℕ)
          → lookup q (live (write_at g i w)) ≡ (if p == q then some w else lookup q (live g))
      lookup-write_at q = rw live-write_at (lookup-set d p w same q (live g) l At-live a.priced)

      pub write_at-IsValid : IsValid max_levels d (write_at g i w)
      write_at-IsValid = record {
        fits = record {
          full = length-set g.levels i w ∙ v.fits.full;
          within = v.fits.within;
          small = v.fits.small;
        };
        sorted = rw live-write_at (set-IsSorted d p w same (live g) l At-live a.priced v.sorted);
      }

      pub At-write_at : At d p (write_at g i w) i w
      At-write_at = record {
        place =
            a.place
            ∙ sym (ap (position d p) live-write_at ∙ position-set d p w same (live g) l At-live);
        inside = a.inside;
        holds =
            get_or-set_self g.levels i w default_level (omega (arith, v.fits.full, v.fits.within));
        priced = same;
      }

    pub lookup-remove_level :
        (q : ℕ) → lookup q (live (remove_level g i)) ≡ (if p == q then none else lookup q (live g))
    lookup-remove_level q =
        rw (live-remove_level v.fits i a.inside, a.place)
          (lookup-remove_at d p q (live g) l At-live a.priced v.sorted)

    pub remove_level-IsValid : IsValid max_levels d (remove_level g i)
    remove_level-IsValid = record {
      fits = remove_level-Fits v.fits i a.inside;
      sorted = rw (live-remove_level v.fits i a.inside) (remove_at-IsSorted d i (live g) v.sorted);
    }

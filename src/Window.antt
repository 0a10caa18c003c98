-- ===== src/Window.antt =====
-- `WindowExtractor` of chaos/src/window.rs. A chaos event, the severity and its zero are parameters;
-- `severity_of` is the mean of the events' severities in floating point.
pub mod Events
mod Tests
use flowlab.Prelude.{
  ℕ, ◌+◌, ◌-◌, ◌%◌, Bool, Option, none, some, List, [], ◌∷◌, ◌++◌, ltb, leb, ◌&&◌, if◌then◌else◌,
  push, u64_mod,
}

-- `Regime` of flow/src/regime.rs, in the order of its derived `Ord`
pub data Regime : Type 0 where
  calm volatile aggressive crisis : Regime

abbrev pub rank : Regime → ℕ
rank calm = 0
rank volatile = 1
rank aggressive = 2
rank crisis = 3

pub record StressWindow (C S : Type 0) : Type 0 where
  pub start_seq : ℕ
  pub end_seq : ℕ
  pub regime : Regime
  pub severity : S
  pub chaos_events : List C

pub record Tagged (C : Type 0) : Type 0 where
  pub seq : ℕ
  pub regime : Regime
  pub chaos : List C

pub record WindowExtractor : Type 0 where
  pub min_regime : Regime
  pub merge_gap : ℕ

abbrev pub new : Regime → ℕ → WindowExtractor
new min_regime merge_gap = record { min_regime = min_regime; merge_gap = merge_gap }

module _ {C S : Type 0} (zero : S) (severity_of : List C → S) where
  unfoldable pub severity_finalize :
      StressWindow C S → List (StressWindow C S) → List (StressWindow C S)
  severity_finalize w dest = push dest (record w {
    severity = elim w.chaos_events [ [] ↦ zero | e ∷ es ↦ severity_of w.chaos_events ];
  })

  -- `if let Some(w) = current.take() { w.severity_finalize(&mut windows) }`
  unfoldable pub finish :
      Option (StressWindow C S) → List (StressWindow C S) → List (StressWindow C S)
  finish none windows = windows
  finish (some w) windows = severity_finalize w windows

  -- the window that starts at an entry
  abbrev pub open_window : Tagged C → StressWindow C S
  open_window t = record {
    start_seq = t.seq;
    end_seq = t.seq;
    regime = t.regime;
    severity = zero;
    chaos_events = t.chaos;
  }

  -- the window that takes an entry in
  abbrev pub extended : StressWindow C S → Tagged C → StressWindow C S
  extended w t = record w {
    end_seq = t.seq;
    regime = if ltb (rank w.regime) (rank t.regime) then t.regime else w.regime;
    chaos_events = w.chaos_events ++ t.chaos;
  }

  -- `seq - w.end_seq <= merge_gap`, where the difference wraps
  abbrev pub is_near : WindowExtractor → StressWindow C S → Tagged C → Bool
  is_near x w t = leb ((t.seq + (u64_mod - w.end_seq)) % u64_mod) x.merge_gap

  abbrev pub State : Type 0
  State = Option (StressWindow C S) × List (StressWindow C S)

  -- an entry of at least `min_regime`
  unfoldable pub stressed : WindowExtractor → Tagged C → State → State
  stressed x t (none, windows) = (some (open_window t), windows)
  stressed x t (some w, windows) =
      if is_near x w t
      then (some (extended w t), windows)
      else (some (open_window t), severity_finalize w windows)

  unfoldable pub extract_step : WindowExtractor → Tagged C → State → State
  extract_step x t s =
      if leb (rank x.min_regime) (rank t.regime) then stressed x t s else (none, finish s.0 s.1)

  unfoldable pub extract_loop : WindowExtractor → List (Tagged C) → State → State
  extract_loop x [] s = s
  extract_loop x (t ∷ ts) s = extract_loop x ts (extract_step x t s)

  unfoldable pub extract : WindowExtractor → List (Tagged C) → List (StressWindow C S)
  extract x tagged = let s = extract_loop x tagged (none, []) in finish s.0 s.1

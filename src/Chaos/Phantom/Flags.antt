-- ===== src/Chaos/Phantom/Flags.antt =====
-- The flags of `PhantomLiquidityDetector` (chaos/src/phantom_liquidity.rs) after any events.
use flowlab.Prelude.{ℕ, Option, List, [], ◌∷◌}
use flowlab.Event.{SequencedEvent}
use flowlab.Map
use flowlab.Chaos.{ChaosEvent, Doubles}
use flowlab.Chaos.Phantom.{PhantomLiquidityDetector}
use flowlab.Chaos.Phantom.Cancels.{Configured, Reports}
use flowlab.Chaos.Phantom.Placed.{Knows}
use flowlab.Chaos.Phantom.Untraded.{AllBorn}

-- newest first, the events after a history
abbrev pub newest_first : List SequencedEvent → List SequencedEvent → List SequencedEvent
newest_first [] h = h
newest_first (e ∷ es) h = newest_first es (e ∷ h)

module _ {F : Type 0} (fl : Doubles F) (gap time_gap floor : ℕ) where
  -- what is known of a detector after a history
  abbrev Traced : List SequencedEvent → PhantomLiquidityDetector → Type 0
  Traced h d = Configured fl gap time_gap floor d × AllBorn h d.levels × Knows h d.orders

  -- what any event leaves and reports
  abbrev Keeps :
      List SequencedEvent
      → SequencedEvent
      → Option (ChaosEvent F) × PhantomLiquidityDetector
      → Type 0
  Keeps h e (out, d) = Traced (e ∷ h) d × Reports fl gap time_gap floor h e out

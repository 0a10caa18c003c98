-- ===== src/Chaos/Phantom/Orders.antt =====
-- The order map of `PhantomLiquidityDetector` (chaos/src/phantom_liquidity.rs), which nothing bounds.
use flowlab.Prelude.{
  ◌+◌, ◌≡◌, ◌≢◌, sym, ap, ◌∙◌, none, some, List, [], ◌∷◌, ◌==◌, ==_iff, length, arith, Bool-cases,
  inl, inr, subst,
}
use flowlab.Event.{EventType, SequencedEvent}
use flowlab.Map
use flowlab.Map.{Map}
use flowlab.Map.Laws.{length-insert}
use flowlab.Chaos.{Doubles}
use flowlab.Chaos.Phantom.{PhantomLiquidityDetector, on_add, phantom_match, phantom_process}
use flowlab.Chaos.Phantom.Tracked.{Key, key_of}
use flowlab.Chaos.Phantom.Bound.{phantom_run}
use flowlab.Chaos.Phantom.Untraded.{type_of}

-- adds, each of an order that the map does not have when it comes
abbrev pub AddNewOrders : Map Key → List SequencedEvent → Type 0
AddNewOrders m [] = Unit
AddNewOrders m (e ∷ es) =
    (type_of e ≡ some EventType.order_add)
    × (e.event.order_id ≢ 0)
    × (Map.get e.event.order_id m ≡ none)
    × AddNewOrders (Map.insert e.event.order_id (key_of e.event) m) es

on_add-orders :
    (d : PhantomLiquidityDetector) (e : SequencedEvent)
    → e.event.order_id ≢ 0
    → (on_add d e).orders ≡ Map.insert e.event.order_id (key_of e.event) d.orders
unfolding on_add
on_add-orders d e h = elim (Bool-cases (e.event.order_id == 0)) [
  | inl anonymous ↦ absurd (h ((==_iff e.event.order_id 0).0 anonymous))
  | inr named ↦ rw named
]

module _ {F : Type 0} (fl : Doubles F) where
  process-orders :
      (d : PhantomLiquidityDetector) (e : SequencedEvent)
      → type_of e ≡ some EventType.order_add
      → e.event.order_id ≢ 0
      → (phantom_process fl d e).1.orders ≡ Map.insert e.event.order_id (key_of e.event) d.orders
  unfolding phantom_process phantom_match
  process-orders d e add named =
      ap (λ t. (phantom_match fl d e t).1.orders) add ∙ on_add-orders d e named

  -- Adds of new orders make the order map longer by one each, also while the cap on levels evicts
  -- their levels: the map has as many entries more as there were adds.
  pub phantom_run-orders :
      (d : PhantomLiquidityDetector) (es : List SequencedEvent)
      → AddNewOrders d.orders es
      → length (phantom_run fl d es).orders ≡ length d.orders + length es
  phantom_run-orders d [] new = omega arith
  phantom_run-orders d (e ∷ es) (add, named, absent, rest) =
      let d' = (phantom_process fl d e).1 in
      let grown = process-orders d e add named in
      let ih = phantom_run-orders d' es (subst (λ m. AddNewOrders m es) (sym grown) rest) in
      omega (
        arith,
        ih,
        ap length grown,
        length-insert e.event.order_id (key_of e.event) d.orders absent,
      )

-- ===== src/Chaos/Phantom/Placed.antt =====
-- The map of orders of `PhantomLiquidityDetector` (chaos/src/phantom_liquidity.rs): where it has a
-- level for an order, the order was placed there.
use flowlab.Prelude.{
  ℕ, ◌≡◌, ◌≢◌, ap, ◌⊎◌, none, some, List, [], ◌∷◌, ◌==◌, arith, Bool-cases, inl, inr, sym, ◌∙◌,
  ==_iff,
}
use flowlab.Event.{EventType, SequencedEvent}
use flowlab.Map
use flowlab.Map.{Map}
use flowlab.Map.Laws.{get-insert, get-remove}
use flowlab.Chaos.Phantom.{PhantomLiquidityDetector, on_add, forget_order}
use flowlab.Chaos.Phantom.Tracked.{Key, key_of}
use flowlab.Chaos.Phantom.Untraded.{type_of, Adds}

-- an add, a modification or a cancel of the order
abbrev pub NamesOrder : ℕ → SequencedEvent → Type 0
NamesOrder id e = (Adds e ⊎ (type_of e ≡ some EventType.order_cancel)) × (e.event.order_id ≡ id)

-- In a history, the newest event first: the last event that names the order added it at the level.
abbrev pub Placed : ℕ → Key → List SequencedEvent → Type 0
Placed id k [] = ⊥
Placed id k (e ∷ h) =
    (Adds e × (e.event.order_id ≡ id) × (key_of e.event ≡ k))
    ⊎ ((¬ NamesOrder id e) × Placed id k h)

-- what the map knows of the orders other than 0
abbrev pub Knows : List SequencedEvent → Map Key → Type 0
Knows h m = (id : ℕ) (k : Key) → id ≢ 0 → Map.get id m ≡ some k → Placed id k h

pub Knows-next :
    (e : SequencedEvent) (h : List SequencedEvent) (m : Map Key)
    → ¬ (Adds e ⊎ (type_of e ≡ some EventType.order_cancel))
    → Knows h m
    → Knows (e ∷ h) m
Knows-next e h m silent knows id k named found =
    inr (λ names. silent names.0, knows id k named found)

forget_order-other :
    (d : PhantomLiquidityDetector) (e : SequencedEvent) (id : ℕ)
    → id ≢ e.event.order_id
    → Map.get id (forget_order d e.event).orders ≡ Map.get id d.orders
unfolding forget_order
forget_order-other d e id other = ground (arith, get-remove e.event.order_id id d.orders)

forget_order_self :
    (d : PhantomLiquidityDetector) (e : SequencedEvent)
    → e.event.order_id ≢ 0
    → Map.get e.event.order_id (forget_order d e.event).orders ≡ none
unfolding forget_order
forget_order_self d e named = ground (arith, get-remove e.event.order_id e.event.order_id d.orders)

pub Knows-forget :
    (d : PhantomLiquidityDetector) (e : SequencedEvent) (h : List SequencedEvent)
    → Knows h d.orders
    → Knows (e ∷ h) (forget_order d e.event).orders
Knows-forget d e h knows id k named found = elim (Bool-cases (id == e.event.order_id)) [
  | inl self ↦
      let same : id ≡ e.event.order_id = (==_iff _ _).0 self in
      let gone = forget_order_self d e (λ zero_id. named (same ∙ zero_id)) in
      let clash : none ≡ some k =
        sym gone ∙ ap (λ i. Map.get i (forget_order d e.event).orders) (sym same) ∙ found in
      cc
  | inr other ↦
      let differs : id ≢ e.event.order_id = λ same. ground arith in
      inr (
        λ names. differs (sym names.1),
        knows id k named (sym (forget_order-other d e id differs) ∙ found),
      )
]

on_add_self :
    (d : PhantomLiquidityDetector) (e : SequencedEvent)
    → e.event.order_id ≢ 0
    → Map.get e.event.order_id (on_add d e).orders ≡ some (key_of e.event)
unfolding on_add
on_add_self d e named =
    ground (arith, get-insert e.event.order_id e.event.order_id (key_of e.event) d.orders)

on_add-other :
    (d : PhantomLiquidityDetector) (e : SequencedEvent) (id : ℕ)
    → id ≢ e.event.order_id
    → Map.get id (on_add d e).orders ≡ Map.get id d.orders
unfolding on_add
on_add-other d e id other = ground (arith, get-insert e.event.order_id id (key_of e.event) d.orders)

-- An add records its order, whatever the map knows of it before.
pub Knows-on_add :
    (d : PhantomLiquidityDetector) (e : SequencedEvent) (h : List SequencedEvent)
    → Adds e
    → ((id : ℕ) (k : Key)
        → id ≢ 0
        → id ≢ e.event.order_id
        → Map.get id d.orders ≡ some k
        → Placed id k h)
    → Knows (e ∷ h) (on_add d e).orders
Knows-on_add d e h adds knows id k named found = elim (Bool-cases (id == e.event.order_id)) [
  | inl self ↦
      let same : id ≡ e.event.order_id = (==_iff _ _).0 self in
      let recorded = on_add_self d e (λ zero_id. named (same ∙ zero_id)) in
      let key : some (key_of e.event) ≡ some k =
        sym recorded ∙ ap (λ i. Map.get i (on_add d e).orders) (sym same) ∙ found in
      inl (adds, sym same, cc)
  | inr other ↦
      let differs : id ≢ e.event.order_id = λ same. ground arith in
      inr (
        λ names. differs (sym names.1),
        knows id k named differs (sym (on_add-other d e id differs) ∙ found),
      )
]

-- A modification forgets its order and records it anew.
pub Knows-modify :
    (d c : PhantomLiquidityDetector) (e : SequencedEvent) (h : List SequencedEvent)
    → Adds e
    → c.orders ≡ (forget_order d e.event).orders
    → Knows h d.orders
    → Knows (e ∷ h) (on_add c e).orders
Knows-modify d c e h adds same knows = Knows-on_add c e h adds (λ id k named differs found.
    knows id k named
      (sym (forget_order-other d e id differs) ∙ ap (λ m. Map.get id m) (sym same) ∙ found))

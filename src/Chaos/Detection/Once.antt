-- ===== src/Chaos/Detection/Once.antt =====
-- How often `SpoofDetector` (chaos/src/detection.rs) raises a flag, and when it must.
use flowlab.Prelude.{
  sub_u64, le→leb, ◌∙◌, ℕ, ◌+◌, ◌*◌, ◌%◌, ◌≤◌, ◌<◌, ◌≡◌, ◌≢◌, refl, ap, true, Option, none, some,
  List, [], ◌∷◌, ◌++◌, leb, ltb, lt→ltb, if◌then◌else◌, push, length, length-push, arith, u64_mod,
  All,
}
use flowlab.Event.{EventType, SequencedEvent, event_type_from_u8}
use flowlab.Chaos.{ChaosEvent, Doubles}
use flowlab.Chaos.Detection.{
  SpoofDetector, spoof_process, spoof_match, spoof_cancel, spoof_add, spoof_flag, take_order,
  retain_young, LargeOrder,
}
use flowlab.Chaos.Refractory.{flags_of}
use flowlab.Chaos.Detection.Spoofs.{
  All-retain_young, Takes, take_order-Takes, length-retain_young, order_of,
}

-- how many of the events are adds of at least the threshold
unfoldable pub is_large_add : ℕ → SequencedEvent → Option EventType → ℕ
is_large_add limit e (some EventType.order_add) = if leb limit e.event.qty then 1 else 0
is_large_add limit e _ = 0

unfoldable pub large_adds : ℕ → List SequencedEvent → ℕ
large_adds limit [] = 0
large_adds limit (e ∷ es) =
    is_large_add limit e (event_type_from_u8 e.event.event_type) + large_adds limit es

module _ {F : Type 0} (fl : Doubles F) where
  -- the flags of some events, in order
  unfoldable pub spoof_flags : SpoofDetector → List SequencedEvent → List (ChaosEvent F)
  spoof_flags d [] = []
  spoof_flags d (e ∷ es) = let (out, d') = spoof_process fl d e in flags_of out ++ spoof_flags d' es

  -- A step's flag is paid for by an order that leaves the list.
  abbrev Paid : SpoofDetector → ℕ → Option (ChaosEvent F) × SpoofDetector → Type 0
  Paid d new (out, d') =
      (length (flags_of out) + length d'.large_orders ≤ length d.large_orders + new)
      × (d'.large_qty_threshold ≡ d.large_qty_threshold)

  all_orders : (os : List LargeOrder) → All (λ (o : LargeOrder). Unit {0}) os
  all_orders [] = tt
  all_orders (o ∷ os) = (tt, all_orders os)

  cancel-Paid :
      (d : SpoofDetector) (e : SequencedEvent) (r : Option (LargeOrder × List LargeOrder))
      → Takes (λ (o : LargeOrder). Unit {0}) e.event.order_id d.large_orders r
      → Paid d 0 (spoof_cancel fl d e r)
  unfolding spoof_cancel
  cancel-Paid d e none t = (omega arith, refl)
  cancel-Paid d e (some (o, rest)) (id, ho, hr, n) = (ground (arith, n), refl)

  match-Paid :
      (d : SpoofDetector) (e : SequencedEvent) (t : Option EventType)
      → Paid d (is_large_add d.large_qty_threshold e t) (spoof_match fl d e t)
  unfolding spoof_match is_large_add spoof_add
  match-Paid d e (some EventType.order_add) = ground (
    arith,
    length-push d.large_orders (order_of e),
    length-retain_young e.seq d.cancel_window (push d.large_orders (order_of e)),
  )
  match-Paid d e (some EventType.order_cancel) =
      cancel-Paid d e (take_order e.event.order_id d.large_orders)
        (take_order-Takes _ e.event.order_id d.large_orders (all_orders d.large_orders))
  match-Paid d e none = (omega arith, refl)
  match-Paid d e (some other) = (omega arith, refl)

  length-flags :
      (out : Option (ChaosEvent F)) (fs : List (ChaosEvent F))
      → length (flags_of out ++ fs) ≡ length (flags_of out) + length fs
  length-flags none fs = omega arith
  length-flags (some f) fs = omega arith

  -- Flags are no more than large orders: each order that a large add placed is flagged at most once,
  -- also over all events, whatever their ids.
  pub spoof_flags-le :
      (d : SpoofDetector) (es : List SequencedEvent)
      → length (spoof_flags d es) ≤ length d.large_orders + large_adds d.large_qty_threshold es
  unfolding spoof_flags large_adds spoof_process
  spoof_flags-le d [] = omega arith
  spoof_flags-le d (e ∷ es) =
      let t = event_type_from_u8 e.event.event_type in
      let r = spoof_match fl d e t in
      let (paid, kept) = match-Paid d e t in
      let rest : length (spoof_flags r.1 es)
          ≤ length r.1.large_orders + large_adds d.large_qty_threshold es =
        rw kept at (spoof_flags-le r.1 es) in
      omega (arith, length-flags r.0 (spoof_flags r.1 es), paid, rest)

take_order_last :
    (id : ℕ) (os : List LargeOrder) (o : LargeOrder)
    → All (λ (p : LargeOrder). p.2 ≢ id) os
    → o.2 ≡ id
    → take_order id (push os o) ≡ some (o, os)
unfolding take_order
take_order_last id [] o a e = ground (arith, e)
take_order_last id (p ∷ os) o a e = ground (arith, take_order_last id os o a.1 e, a.0)

sub_u64_self : (a : ℕ) → a < u64_mod → sub_u64 a a ≡ 0
unfolding sub_u64
sub_u64_self a h = omega arith

retain_young-push :
    (seq window : ℕ) (os : List LargeOrder) (o : LargeOrder)
    → ltb (sub_u64 seq o.0) (window * 2 % u64_mod) ≡ true
    → retain_young seq window (push os o) ≡ push (retain_young seq window os) o
unfolding retain_young
retain_young-push seq window [] o h = rw h
retain_young-push seq window (p ∷ os) o h = ground (arith, retain_young-push seq window os o h)

module _ {F : Type 0} (fl : Doubles F) (d : SpoofDetector) (a c : SequencedEvent) where
  added : SpoofDetector
  added = (spoof_match fl d a (some EventType.order_add)).1

  added-take_order :
      d.large_qty_threshold ≤ a.event.qty
      → 0 < d.cancel_window
      → d.cancel_window * 2 < u64_mod
      → a.seq < u64_mod
      → a.event.order_id ≡ c.event.order_id
      → All (λ (p : LargeOrder). p.2 ≢ c.event.order_id) d.large_orders
      → take_order c.event.order_id added.large_orders
        ≡ some (order_of a, retain_young a.seq d.cancel_window d.large_orders)
  unfolding added spoof_match spoof_add
  added-take_order large on small word same fresh =
      rw (le→leb d.large_qty_threshold a.event.qty large) (
        ap (take_order c.event.order_id) (
          retain_young-push a.seq d.cancel_window d.large_orders (order_of a)
            (lt→ltb _ _ (omega (arith, sub_u64_self a.seq word))))
        ∙ take_order_last c.event.order_id (retain_young a.seq d.cancel_window d.large_orders)
            (order_of a)
            (All-retain_young (λ (p : LargeOrder). p.2 ≢ c.event.order_id) a.seq d.cancel_window
              d.large_orders fresh)
            same)

  added-cancel_window : added.cancel_window ≡ d.cancel_window
  unfolding added spoof_match spoof_add
  added-cancel_window = ground arith

  near_flag :
      (rest : List LargeOrder)
      → sub_u64 c.seq a.seq ≤ d.cancel_window
      → (spoof_cancel fl added c (some (order_of a, rest))).0
        ≡ some (spoof_flag fl added c (order_of a))
  unfolding spoof_cancel
  near_flag rest near =
      rw (
        le→leb (sub_u64 c.seq a.seq) added.cancel_window (omega (arith, near, added-cancel_window)))

  -- An add of at least the threshold and the cancel of that order as the next event, at most
  -- `cancel_window` sequence numbers later, raise a flag that starts at the add and names the order: if the window is on and its double a `u64`,
  -- the add's sequence number is one, and no order of that id is recorded before.
  pub spoof_process-detects :
      event_type_from_u8 a.event.event_type ≡ some EventType.order_add
      → event_type_from_u8 c.event.event_type ≡ some EventType.order_cancel
      → d.large_qty_threshold ≤ a.event.qty
      → 0 < d.cancel_window
      → d.cancel_window * 2 < u64_mod
      → a.seq < u64_mod
      → sub_u64 c.seq a.seq ≤ d.cancel_window
      → a.event.order_id ≡ c.event.order_id
      → All (λ (p : LargeOrder). p.2 ≢ c.event.order_id) d.large_orders
      → (f : ChaosEvent F) × ((spoof_process fl (spoof_process fl d a).1 c).0 ≡ some f)
        × (f.start_seq ≡ a.seq)
        × (f.initiator ≡ some c.event.order_id)
  unfolding spoof_process spoof_flag spoof_match spoof_cancel added
  spoof_process-detects is_add is_cancel large on small word near same fresh = (
    spoof_flag fl added c (order_of a),
    ap (λ t. (spoof_process fl (spoof_match fl d a t).1 c).0) is_add
        ∙ ap (λ t. (spoof_match fl added c t).0) is_cancel
        ∙ ap (λ r. (spoof_cancel fl added c r).0) (added-take_order large on small word same fresh)
        ∙ near_flag (retain_young a.seq d.cancel_window d.large_orders) near,
    refl,
    refl,
  )

-- ===== src/Chaos/Detection/Spoofs.antt =====
-- What a flag of `SpoofDetector` (chaos/src/detection.rs) says of the events before it.
use flowlab.Prelude.{
  sub_u64, ℕ, suc, ◌≤◌, ◌≡◌, refl, sym, ap, ◌∙◌, Option, none, some, List, [], ◌∷◌, ◌++◌, leb,
  leb→le, ◌==◌, ==_iff, if◌then◌else◌, push, length, arith, Bool-cases, inl, inr, subst, All,
  All-map, All-push, Any, Any-append_left, Any-append_right, Any-map, append-nil, append_assoc,
}
use flowlab.Event.{EventType, SequencedEvent, event_type_from_u8}
use flowlab.Chaos.{ChaosEvent, Doubles}
use flowlab.Chaos.Detection.{
  SpoofDetector, new_spoof, spoof_process, spoof_match, spoof_cancel, spoof_add, spoof_flag,
  take_order, keep_order, retain_young, LargeOrder,
}

-- a large add, and the entry that it leaves
abbrev pub IsLargeAdd : ℕ → SequencedEvent → Type 0
IsLargeAdd limit a =
    (event_type_from_u8 a.event.event_type ≡ some EventType.order_add) × (limit ≤ a.event.qty)

abbrev pub order_of : SequencedEvent → LargeOrder
order_of a = (a.seq, a.event.ts, a.event.order_id, a.event.qty)

pub All-retain_young {κ} :
    (P : LargeOrder → Type κ) (seq window : ℕ) (os : List LargeOrder)
    → All P os
    → All P (retain_young seq window os)
unfolding retain_young
All-retain_young P seq window [] a = tt
All-retain_young P seq window (o ∷ os) a = ground (arith, All-retain_young P seq window os a.1)

pub length-retain_young :
    (seq window : ℕ) (os : List LargeOrder) → length (retain_young seq window os) ≤ length os
unfolding retain_young
length-retain_young seq window [] = omega arith
length-retain_young seq window (o ∷ os) = ground (arith, length-retain_young seq window os)

-- The order that is taken is of that id, and what holds of all orders holds of it and of the rest.
abbrev pub Takes {κ} :
    (P : LargeOrder → Type κ) → ℕ → List LargeOrder → Option (LargeOrder × List LargeOrder) → Type κ
Takes P id os none = Unit
Takes P id os (some (o, rest)) = (o.2 ≡ id) × P o × All P rest × (length os ≡ suc (length rest))

keep_order-Takes {κ} :
    (P : LargeOrder → Type κ) (id : ℕ) (os : List LargeOrder) (p : LargeOrder)
    (r : Option (LargeOrder × List LargeOrder))
    → P p
    → Takes P id os r
    → Takes P id (p ∷ os) (keep_order p r)
keep_order-Takes P id os p none hp t = tt
keep_order-Takes P id os p (some (o, rest)) hp (e, ho, hr, l) = (e, ho, (hp, hr), ap suc l)

pub take_order-Takes {κ} :
    (P : LargeOrder → Type κ) (id : ℕ) (os : List LargeOrder)
    → All P os
    → Takes P id os (take_order id os)
unfolding take_order
take_order-Takes P id [] a = tt
take_order-Takes P id (p ∷ os) a = elim (Bool-cases (p.2 == id)) [
  | inl here ↦ rw here ((==_iff p.2 id).0 here, a.0, a.1, refl)
  | inr later ↦
      rw later (keep_order-Takes P id os p (take_order id os) a.0 (take_order-Takes P id os a.1))
]

module _ {F : Type 0} (fl : Doubles F) where
  -- the detector after some events
  abbrev pub spoof_run : SpoofDetector → List SequencedEvent → SpoofDetector
  spoof_run d [] = d
  spoof_run d (e ∷ es) = spoof_run (spoof_process fl d e).1 es

module _ {F : Type 0} (fl : Doubles F) (limit window : ℕ) where
  -- Every large order is one that some event of the history added.
  abbrev Recorded : List SequencedEvent → LargeOrder → Type 0
  Recorded h o = Any (λ a. IsLargeAdd limit a × (o ≡ order_of a)) h

  abbrev Traced : List SequencedEvent → SpoofDetector → Type 0
  Traced h d =
      (d.large_qty_threshold ≡ limit) × (d.cancel_window ≡ window) × All (Recorded h) d.large_orders

  -- The event is a cancel of an order that a large add of the history placed within the window, and
  -- the flag has that add's place and quantity.
  abbrev pub IsSpoof : List SequencedEvent → SequencedEvent → ChaosEvent F → Type 0
  IsSpoof h e f =
      (event_type_from_u8 e.event.event_type ≡ some EventType.order_cancel)
      × (f.end_seq ≡ e.seq)
      × (f.initiator ≡ some e.event.order_id)
      × Any
          (λ a.
            IsLargeAdd limit a
            × (a.event.order_id ≡ e.event.order_id)
            × (f.start_seq ≡ a.seq)
            × (f.features.depth_removed ≡ a.event.qty)
            × (sub_u64 e.seq a.seq ≤ window))
          h

  Traced-push :
      (h : List SequencedEvent) (e : SequencedEvent) (os : List LargeOrder)
      → All (Recorded h) os
      → All (Recorded (push h e)) os
  Traced-push h e os =
      All-map (Recorded h) (Recorded (push h e)) os (λ o a. Any-append_left _ h (e ∷ []) a)

  -- what a step leaves and what it reports
  abbrev Sound :
      List SequencedEvent → SequencedEvent → Option (ChaosEvent F) × SpoofDetector → Type 0
  Sound h e (out, d) = Traced (push h e) d × ((f : ChaosEvent F) → out ≡ some f → IsSpoof h e f)

  spoof_flag-IsSpoof :
      (h : List SequencedEvent) (d : SpoofDetector) (e : SequencedEvent) (o : LargeOrder)
      → event_type_from_u8 e.event.event_type ≡ some EventType.order_cancel
      → o.2 ≡ e.event.order_id
      → sub_u64 e.seq o.0 ≤ window
      → Recorded h o
      → IsSpoof h e (spoof_flag fl d e o)
  unfolding spoof_flag
  spoof_flag-IsSpoof h d e o t id near ho = (
    t,
    refl,
    refl,
    Any-map _ _ h
        (λ a (large, eq). (
          large,
          ap (λ (p : LargeOrder). p.2) (sym eq) ∙ id,
          ap (λ (p : LargeOrder). p.0) eq,
          ap (λ (p : LargeOrder). p.3) eq,
          subst (λ (p : LargeOrder). sub_u64 e.seq p.0 ≤ window) eq near,
        ))
        ho,
  )

  cancel-Sound :
      (h : List SequencedEvent) (d : SpoofDetector) (e : SequencedEvent)
      (r : Option (LargeOrder × List LargeOrder))
      → event_type_from_u8 e.event.event_type ≡ some EventType.order_cancel
      → Traced h d
      → Takes (Recorded h) e.event.order_id d.large_orders r
      → Sound h e (spoof_cancel fl d e r)
  unfolding spoof_cancel
  cancel-Sound h d e none t (l, w, os) k = ((l, w, Traced-push h e d.large_orders os), λ f q. cc)
  cancel-Sound h d e (some (o, rest)) t (l, w, os) (id, ho, hr, n) = (
    (l, w, Traced-push h e rest hr),
    λ f q. elim (Bool-cases (leb (sub_u64 e.seq o.0) d.cancel_window)) [
      | inl near ↦
          let made : some (spoof_flag fl d e o) ≡ some f = rw near at q in
          let inside = leb→le (sub_u64 e.seq o.0) d.cancel_window near in
          let same : spoof_flag fl d e o ≡ f = cc in
          subst (IsSpoof h e) same
            (spoof_flag-IsSpoof h d e o t id (subst (λ k. sub_u64 e.seq o.0 ≤ k) w inside) ho)
      | inr far ↦ let no_flag : none ≡ some f = rw far at q in cc
    ],
  )

  add-Sound :
      (h : List SequencedEvent) (d : SpoofDetector) (e : SequencedEvent)
      → event_type_from_u8 e.event.event_type ≡ some EventType.order_add
      → Traced h d
      → Traced (push h e) (if leb d.large_qty_threshold e.event.qty then spoof_add d e else d)
  unfolding spoof_add
  add-Sound h d e t (l, w, os) = elim (Bool-cases (leb d.large_qty_threshold e.event.qty)) [
    | inl large ↦
        let enough = leb→le d.large_qty_threshold e.event.qty large in
        let mine : Recorded (push h e) (order_of e) =
          Any-append_right _ h (e ∷ []) (inl ((t, subst (λ k. k ≤ e.event.qty) l enough), refl)) in
        rw large (
          l,
          w,
          All-retain_young (Recorded (push h e)) e.seq d.cancel_window _ (
              All-push (Recorded (push h e)) d.large_orders (order_of e)
                (Traced-push h e d.large_orders os) mine),
        )
    | inr small ↦ rw small (l, w, Traced-push h e d.large_orders os)
  ]

  match-Sound :
      (h : List SequencedEvent) (d : SpoofDetector) (e : SequencedEvent) (t : Option EventType)
      → event_type_from_u8 e.event.event_type ≡ t
      → Traced h d
      → Sound h e (spoof_match fl d e t)
  unfolding spoof_match
  match-Sound h d e (some EventType.order_add) eq w = (add-Sound h d e eq w, λ f q. cc)
  match-Sound h d e (some EventType.order_cancel) eq w =
      cancel-Sound h d e (take_order e.event.order_id d.large_orders) eq w
        (take_order-Takes (Recorded h) e.event.order_id d.large_orders w.2)
  match-Sound h d e none eq (l, w, os) = ((l, w, Traced-push h e d.large_orders os), λ f q. cc)
  match-Sound h d e (some other) eq (l, w, os) =
      ((l, w, Traced-push h e d.large_orders os), λ f q. cc)

  run-Traced :
      (d : SpoofDetector) (es h : List SequencedEvent)
      → Traced h d
      → Traced (h ++ es) (spoof_run fl d es)
  unfolding spoof_process
  run-Traced d [] h w = rw (append-nil h) w
  run-Traced d (e ∷ es) h w =
      subst (λ l. Traced l (spoof_run fl d (e ∷ es))) (append_assoc h (e ∷ []) es)
        (run-Traced (spoof_process fl d e).1 es (push h e)
          (match-Sound h d e (event_type_from_u8 e.event.event_type) refl w).0)

  new_spoof-Traced : Traced [] (new_spoof limit window)
  unfolding new_spoof
  new_spoof-Traced = (refl, refl, tt)

  -- A flag that follows any events on a new detector is a spoof: its event cancels an order that one
  -- of those events, an add of at least the threshold, placed at most `cancel_window` sequence
  -- numbers before, and the flag starts at that add and has its quantity.
  pub spoof_process-IsSpoof :
      (es : List SequencedEvent) (e : SequencedEvent) (f : ChaosEvent F)
      → (spoof_process fl (spoof_run fl (new_spoof limit window) es) e).0 ≡ some f
      → IsSpoof es e f
  unfolding spoof_process
  spoof_process-IsSpoof es e f q =
      (match-Sound es (spoof_run fl (new_spoof limit window) es) e
          (event_type_from_u8 e.event.event_type) refl
          (run-Traced (new_spoof limit window) es [] new_spoof-Traced)).1
        f q

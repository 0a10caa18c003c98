-- ===== src/Hot/Book/Lanes.antt =====
-- The batches of `HotOrderBook` by kind of event: `apply_lanes` and its three lanes.
use flowlab.Prelude.{
  ℕ, ◌+◌, Bool, true, false, ◌⊎◌, ◌≡◌, refl, ◌∙◌, ap, sym, Option, some, List, [], ◌∷◌, ◌++◌, ◌==◌,
  ◌||◌, if◌then◌else◌, Bool-cases, inl, inr, arith,
}
use flowlab.Event.{Event, EventType, event_type_from_u8, event_type_to_u8}
use flowlab.Hot.Book.{HotBook, add_order, cancel_order, trade, apply, apply_type}

-- one loop: the events that it picks, and the handler that it calls; `changes` counts the handled
unfoldable pub lane :
    (Event → Bool) → (HotBook → Event → Bool × HotBook) → HotBook → List Event → ℕ × HotBook
lane picks handle b [] = (0, b)
lane picks handle b (e ∷ es) =
    let (ok, b') = handle b e in
    let taken = lane picks handle b' es in
    let passed = lane picks handle b es in
    if picks e then (if ok then taken.0 + 1 else taken.0, taken.1) else passed

abbrev pub is_add : Event → Bool
is_add e = e.event_type == 0x01 || e.event_type == 0x03

abbrev pub is_trade : Event → Bool
is_trade e = e.event_type == 0x04

abbrev pub is_cancel : Event → Bool
is_cancel e = e.event_type == 0x02

unfoldable pub apply_lane_adds : ℕ → HotBook → List Event → ℕ × HotBook
apply_lane_adds max_levels = lane is_add (add_order max_levels)

unfoldable pub apply_lane_trades : HotBook → List Event → ℕ × HotBook
apply_lane_trades = lane is_trade trade

unfoldable pub apply_lane_cancels : HotBook → List Event → ℕ × HotBook
apply_lane_cancels = lane is_cancel cancel_order

unfoldable pub apply_lanes : ℕ → HotBook → List Event → ℕ × HotBook
apply_lanes max_levels b events =
    let adds = apply_lane_adds max_levels b events in
    let trades = apply_lane_trades adds.1 events in
    let cancels = apply_lane_cancels trades.1 events in (adds.0 + trades.0 + cancels.0, cancels.1)

-- What the lanes are to do, by the type that `apply` decodes: the events of a lane, in their order.
abbrev pub chosen : (Option EventType → Event → List Event) → List Event → List Event
chosen part [] = []
chosen part (e ∷ es) = part (event_type_from_u8 e.event_type) e ++ chosen part es

-- a modification as the addition that it ends with
abbrev pub as_add : Event → Event
as_add e = record e { event_type = event_type_to_u8 EventType.order_add }

abbrev pub addition : Option EventType → Event → List Event
addition (some EventType.order_add) e = e ∷ []
addition (some EventType.order_modify) e = as_add e ∷ []
addition _ e = []

abbrev pub execution : Option EventType → Event → List Event
execution (some EventType.trade) e = e ∷ []
execution _ e = []

abbrev pub cancellation : Option EventType → Event → List Event
cancellation (some EventType.order_cancel) e = e ∷ []
cancellation _ e = []

-- One `apply` after the other: how many of them changed the book, and the book.
unfoldable pub tally : ℕ → HotBook → List Event → ℕ × HotBook
tally max_levels b [] = (0, b)
tally max_levels b (e ∷ es) =
    let (ok, b') = apply max_levels b e in
    let rest = tally max_levels b' es in (if ok then rest.0 + 1 else rest.0, rest.1)

tally-append :
    (max_levels : ℕ) (b : HotBook) (es fs : List Event)
    → tally max_levels b (es ++ fs) ≡ (
      (tally max_levels b es).0 + (tally max_levels (tally max_levels b es).1 fs).0,
      (tally max_levels (tally max_levels b es).1 fs).1,
    )
unfolding tally
tally-append max_levels b [] fs = ground arith
tally-append max_levels b (e ∷ es) fs =
    let (ok, b') = apply max_levels b e in
    let ih = tally-append max_levels b' es fs in ground (arith, ih)

-- A lane picks the events that its part of a batch has, and handles them as `apply` does.
abbrev Serves :
    ℕ
    → (Event → Bool)
    → (HotBook → Event → Bool × HotBook)
    → (Option EventType → Event → List Event)
    → Type 0
Serves max_levels picks handle part =
    (e : Event)
    → ((picks e ≡ true)
        × (a : Event) × (part (event_type_from_u8 e.event_type) e ≡ a ∷ [])
        × ((b : HotBook) → handle b e ≡ apply max_levels b a))
      ⊎ ((picks e ≡ false) × (part (event_type_from_u8 e.event_type) e ≡ []))

lane-tally :
    (max_levels : ℕ) (picks : Event → Bool) (handle : HotBook → Event → Bool × HotBook)
    (part : Option EventType → Event → List Event)
    → Serves max_levels picks handle part
    → (b : HotBook) (es : List Event) → lane picks handle b es ≡ tally max_levels b (chosen part es)
unfolding lane tally
lane-tally max_levels picks handle part serves b [] = refl
lane-tally max_levels picks handle part serves b (e ∷ es) = elim (serves e) [
  | inl (h, a, one, same) ↦
      let ih = lane-tally max_levels picks handle part serves (apply max_levels b a).1 es in
      rw (h, one, same b, ih) refl
  | inr (h, empty) ↦
      let ih = lane-tally max_levels picks handle part serves b es in rw (h, empty, ih) refl
]

apply-as_add :
    (max_levels : ℕ) (b : HotBook) (e : Event)
    → add_order max_levels b e ≡ apply max_levels b (as_add e)
unfolding apply apply_type event_type_from_u8 event_type_to_u8 add_order
apply-as_add max_levels b e = refl

add-Serves : (max_levels : ℕ) → Serves max_levels is_add (add_order max_levels) addition
unfolding apply apply_type
add-Serves max_levels e = elim (Bool-cases (e.event_type == 0x01)) [
  | inl added ↦
      let decoded : event_type_from_u8 e.event_type ≡ some EventType.order_add =
        unfold event_type_from_u8 in ground arith in
      inl (ground arith, e, rw decoded refl, λ b. rw decoded refl)
  | inr not_add ↦ elim (Bool-cases (e.event_type == 0x03)) [
    | inl modified ↦
        let decoded : event_type_from_u8 e.event_type ≡ some EventType.order_modify =
          unfold event_type_from_u8 in ground arith in
        inl (ground arith, as_add e, rw decoded refl, λ b. apply-as_add max_levels b e)
    | inr neither ↦
        inr (ground (arith, not_add, neither), unfold event_type_from_u8 in ground arith)
  ]
]

trade-Serves : (max_levels : ℕ) → Serves max_levels is_trade trade execution
unfolding apply apply_type
trade-Serves max_levels e = elim (Bool-cases (e.event_type == 0x04)) [
  | inl traded ↦
      let decoded : event_type_from_u8 e.event_type ≡ some EventType.trade =
        unfold event_type_from_u8 in ground arith in
      inl (traded, e, rw decoded refl, λ b. rw decoded refl)
  | inr other ↦ inr (other, unfold event_type_from_u8 in ground arith)
]

cancel-Serves : (max_levels : ℕ) → Serves max_levels is_cancel cancel_order cancellation
unfolding apply apply_type
cancel-Serves max_levels e = elim (Bool-cases (e.event_type == 0x02)) [
  | inl cancelled ↦
      let decoded : event_type_from_u8 e.event_type ≡ some EventType.order_cancel =
        unfold event_type_from_u8 in ground arith in
      inl (cancelled, e, rw decoded refl, λ b. rw decoded refl)
  | inr other ↦ inr (other, unfold event_type_from_u8 in ground arith)
]

-- `apply_lanes` does what `apply` does of a batch in another order: first its additions, and its
-- modifications each as an addition alone, then its trades, then its cancels, and nothing of the
-- other events. The book is the same, and so is the number of events that changed it.
pub apply_lanes-tally :
    (max_levels : ℕ) (b : HotBook) (es : List Event)
    → apply_lanes max_levels b es
      ≡ tally max_levels b (chosen addition es ++ (chosen execution es ++ chosen cancellation es))
unfolding apply_lanes apply_lane_adds apply_lane_trades apply_lane_cancels
apply_lanes-tally max_levels b es =
    let adds =
      lane-tally max_levels is_add (add_order max_levels) addition (add-Serves max_levels) in
    let trades = lane-tally max_levels is_trade trade execution (trade-Serves max_levels) in
    let cancels =
      lane-tally max_levels is_cancel cancel_order cancellation (cancel-Serves max_levels) in
    let added = tally max_levels b (chosen addition es) in
    let traded = tally max_levels added.1 (chosen execution es) in
    rw (adds b es, trades added.1 es, cancels traded.1 es)
      (sym (
        tally-append max_levels b (chosen addition es) _
        ∙ ap (λ (r : ℕ × HotBook). (added.0 + r.0, r.1))
            (tally-append max_levels added.1 (chosen execution es) (chosen cancellation es))
        ∙ ap (λ (n : ℕ). (n, (tally max_levels traded.1 (chosen cancellation es)).1))
            (omega arith)))

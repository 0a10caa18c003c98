-- ===== src/Agreement/Room.antt =====
-- The room that a stream needs, the slices as the values of the maps, and additions.
use flowlab.Prelude.{
  ℕ, zero, suc, ◌≤◌, ◌<◌, true, false, ◌≡◌, ◌≢◌, refl, ◌∙◌, ap, sym, none, some, List, [], ◌∷◌,
  length, arith, u32_mod, u64_mod, Option-cases, inl, inr, reverse, length-reverse,
}
use flowlab.Event.{Event, Side, bid, ask, side_to_u8, side_from_u8}
use flowlab.Map
use flowlab.Map.{Map}
use flowlab.Map.Laws as MapLaws
use flowlab.Ladder.{Level, lookup}
use flowlab.Ladder.Extensional.{sorted_ext, reverse-IsSorted, lookup-reverse}
use flowlab.Hot.Grid.{Grid, live}
use flowlab.Hot.Grid.Add.{takes}
use flowlab.Hot.Grid.Live.{length-live}
use flowlab.Hot.Book as Hot
use flowlab.Hot.Book.{HotBook, grid}
use flowlab.Reference
use flowlab.Reference.{OrderBook, side_levels, join_level}
use flowlab.Reference.Laws.{lookup-values, length-values, values-IsSorted}
use flowlab.Agreement.Relation.{SideAgrees, Agrees, is_bid, on_side}
use flowlab.Agreement.Steps.{add_on_side_step}

-- An event of a venue's feed: it names an order, a side, and a quantity of 64 bits.
pub record IsRegular (e : Event) : Type 0 where
  pub named : e.order_id ≢ 0
  pub sided : e.side ≤ 1
  pub word : e.qty < u64_mod

-- The reference book stays within the levels that the hot book has room for.
abbrev pub Roomy : ℕ → OrderBook → Type 0
Roomy max_levels r = (length r.bids ≤ max_levels) × (length r.asks ≤ max_levels)

abbrev pub StaysWithin : ℕ → OrderBook → List Event → Type 0
StaysWithin max_levels r [] = Unit
StaysWithin max_levels r (e ∷ es) =
    Roomy max_levels (Reference.apply r e).1 × StaysWithin max_levels (Reference.apply r e).1 es

-- The slices of the hot book are the values of the maps, bids from the last.
pub asks_agree :
    {max_levels : ℕ} {g : Grid} {m : Map Level}
    → SideAgrees max_levels false g m
    → live g ≡ Map.values m
asks_agree {g = g} {m = m} s =
    sorted_ext false (live g) (Map.values m) s.array.sorted (values-IsSorted m s.tree)
      (λ p. s.same p ∙ sym (lookup-values p m s.tree.priced))

pub bids_agree :
    {max_levels : ℕ} {g : Grid} {m : Map Level}
    → SideAgrees max_levels true g m
    → live g ≡ reverse (Map.values m)
bids_agree {g = g} {m = m} s =
    sorted_ext true (live g) (reverse (Map.values m)) s.array.sorted
      (reverse-IsSorted (Map.values m) (values-IsSorted m s.tree))
      (λ p.
        s.same p
        ∙ sym (
            lookup-reverse p (Map.values m) (values-IsSorted m s.tree)
            ∙ lookup-values p m s.tree.priced))

count_agrees :
    {max_levels : ℕ} (s : Side) {g : Grid} {m : Map Level}
    → SideAgrees max_levels (is_bid s) g m
    → g.count ≡ length m
count_agrees bid {g} {m} a = omega (
  arith,
  length-live a.array.fits,
  ap (length {0}) (bids_agree a),
  length-reverse (Map.values m),
  length-values m,
)
count_agrees ask {g} {m} a =
    omega (arith, length-live a.array.fits, ap (length {0}) (asks_agree a), length-values m)

length-join_level :
    (m : Map Level) (p q : ℕ) → Map.get p m ≡ none → length (join_level m p q) ≡ suc (length m)
unfolding join_level
length-join_level m p q new = MapLaws.length-insert p _ m new

-- A side of the hot book refuses no price that the reference book has room for.
takes_of_room :
    {max_levels : ℕ} (s : Side) {g : Grid} {m : Map Level} (p q : ℕ)
    → SideAgrees max_levels (is_bid s) g m
    → length (join_level m p q) ≤ max_levels
    → takes max_levels g (lookup p (live g)) ≡ true
takes_of_room {max_levels} s {g} {m} p q a room = elim (Option-cases (Map.get p m)) [
  | inl new ↦ rw (a.same p, new) (ground (arith, count_agrees s a, length-join_level m p q new))
  | inr (l, old) ↦ rw (a.same p, old)
]

decode_side : (v : ℕ) → v ≤ 1 → (s : Side) × (side_from_u8 v ≡ some s) × (v ≡ side_to_u8 s)
unfolding side_from_u8
decode_side zero h = (bid, refl, refl)
decode_side (suc zero) h = (ask, refl, refl)
decode_side (suc (suc v)) h = absurd (omega arith)

-- an addition within the room
module _ {max_levels used : ℕ} {h : HotBook} {r : OrderBook} (a : Agrees max_levels used h r)
    (e : Event) (small : used < u32_mod) (regular : IsRegular e) where
  room_of_side :
      (s : Side)
      → Roomy max_levels (Reference.add_on_side r e (some s)).1
      → length (join_level (side_levels s r) e.price e.qty) ≤ max_levels
  unfolding Reference.add_on_side
  room_of_side bid room = room.0
  room_of_side ask room = room.1

  pub add_step :
      Roomy max_levels (Reference.add_order r e).1
      → Agrees max_levels (suc used) (Hot.add_order max_levels h e).1 (Reference.add_order r e).1
  unfolding Reference.add_order
  add_step room =
      let (s, decoded, same) = decode_side e.side regular.sided in
      rw decoded (
        add_on_side_step a e small regular.named regular.word s same
          (takes_of_room s e.price e.qty (on_side s a) (room_of_side s (rw decoded at room))))

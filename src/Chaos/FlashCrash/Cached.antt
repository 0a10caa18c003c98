-- ===== src/Chaos/FlashCrash/Cached.antt =====
-- The best prices that `FlashCrashDetector` (chaos/src/flash_crash.rs) keeps are those of its maps.
use flowlab.Prelude.{
  ◌⊎◌, ◌-◌, ℕ, ◌≤◌, ◌≡◌, refl, sym, ap, ◌∙◌, Bool, true, false, Option, none, some, [], ◌∷◌, ltb,
  ◌==◌, ◌&&◌, if◌then◌else◌, length, arith, Bool-cases, inl, inr, subst,
}
use flowlab.Map
use flowlab.Map.{Map, IsOrdered}
use flowlab.Map.Laws.{insert-IsOrdered, remove-IsOrdered}
use flowlab.Chaos.MiniBook.{side_of, set_side, prune_levels, sub_level, best_bid, best_ask, taken}
use flowlab.Chaos.FlashCrash.Book.{
  in_band_same_side, FlashCrashDetector, improves, is_price, with_level, widen, crash_add,
  without_level, narrow, crash_sub_entry, crash_sub,
}
use flowlab.Chaos.FlashCrash.Best.{
  last_price, first_price, max_price, best_of, last-le, last-insert, first-insert, prune_loop-best,
  get-le-last, first-le-get, last-remove_other, first-remove_other,
}

improved_best :
    (side price qty : ℕ) (m : Map ℕ) (o : Option ℕ)
    → IsOrdered m
    → o ≡ best_of side m
    → (if improves side price o then some price else o) ≡ best_of side (Map.insert price qty m)
unfolding improves
improved_best side price qty m none ordered e =
    ground (arith, e, last-insert price qty m ordered, first-insert price qty m ordered)
improved_best side price qty m (some best) ordered e =
    ground (arith, e, last-insert price qty m ordered, first-insert price qty m ordered)

-- an add's new best, with the levels pruned
new_best :
    (side price qty limit : ℕ) (m : Map ℕ) (o : Option ℕ)
    → 1 ≤ limit
    → IsOrdered m
    → o ≡ best_of side m
    → ((if improves side price o then some price else o)
        ≡ best_of side (prune_levels (Map.insert price qty m) side limit))
      × IsOrdered (prune_levels (Map.insert price qty m) side limit)
unfolding prune_levels
new_best side price qty limit m o some_room ordered e =
    let m' = Map.insert price qty m in
    let (same, kept) =
      prune_loop-best (length m') side limit m' some_room (insert-IsOrdered price qty m ordered) in
    (improved_best side price qty m o ordered e ∙ sym same, kept)

best-remove_other :
    (side k : ℕ) (m : Map ℕ)
    → IsOrdered m
    → is_price (best_of side m) k ≡ false
    → best_of side (Map.remove k m) ≡ best_of side m
best-remove_other side k m o n = elim (Bool-cases (side == 0)) [
  | inl bid ↦
      let n' : is_price (last_price m) k ≡ false = rw bid at n in
      rw bid (last-remove_other k m o n')
  | inr ask ↦
      let n' : is_price (first_price m) k ≡ false = rw ask at n in
      rw ask (first-remove_other k m n')
]

best-insert_present :
    (side k v w : ℕ) (m : Map ℕ)
    → IsOrdered m
    → Map.get k m ≡ some w
    → best_of side (Map.insert k v m) ≡ best_of side m
unfolding Map.get Map.first
best-insert_present side k v w [] o g = cc
best-insert_present side k v w ((i, u) ∷ m) o g = elim (Bool-cases (side == 0)) [
  | inl bid ↦
      let (j, e, l) = last-le i u m o in
      let below = get-le-last k w j ((i, u) ∷ m) o g e in
      rw bid (
        last-insert k v ((i, u) ∷ m) o
        ∙ ap (λ b. some (max_price b k)) e
        ∙ ap some (omega (arith, below))
        ∙ sym e)
  | inr ask ↦
      let above = first-le-get k w i ((i, u) ∷ m) o g refl in
      rw ask (first-insert k v ((i, u) ∷ m) o ∙ ap some (omega (arith, above)))
]

-- a level written or taken away: the best read again if the level that went was it
sub_level-best :
    (side price qty entry : ℕ) (m : Map ℕ) (o : Option ℕ)
    → IsOrdered m
    → Map.get price m ≡ some entry
    → o ≡ best_of side m
    → (if entry - taken qty entry == 0 && is_price o price
        then best_of side (sub_level price qty m (some entry))
        else o)
      ≡ best_of side (sub_level price qty m (some entry))
unfolding sub_level
sub_level-best side price qty entry m o ordered g e =
    elim (Bool-cases (entry - taken qty entry == 0)) [
      | inl emptied ↦ elim (Bool-cases (is_price o price)) [
        | inl was_best ↦ rw (emptied, was_best) refl
        | inr other ↦
            rw (emptied, other)
              (e
                ∙ sym (
                    best-remove_other side price m ordered
                      (subst (λ b. is_price b price ≡ false) e other)))
      ]
      | inr left ↦
          rw left
            (e ∙ sym (best-insert_present side price (entry - taken qty entry) entry m ordered g))
    ]

sub_level-IsOrdered :
    (price qty entry : ℕ) (m : Map ℕ) → IsOrdered m → IsOrdered (sub_level price qty m (some entry))
unfolding sub_level
sub_level-IsOrdered price qty entry m o = elim (Bool-cases (entry - taken qty entry == 0)) [
  | inl emptied ↦ rw emptied (remove-IsOrdered price m o)
  | inr left ↦ rw left (insert-IsOrdered price (entry - taken qty entry) m o)
]

never {ℓ} : {A : Type ℓ} (b : Bool) (x y : A) → (if b && false then x else y) ≡ y
never true x y = refl
never false x y = refl

-- What the detector keeps is what its maps say.
module _ {F : Type 0} where
  abbrev pub Cached : FlashCrashDetector F → Type 0
  Cached d =
      (d.cached_bb ≡ best_bid d.book)
      × (d.cached_ba ≡ best_ask d.book)
      × IsOrdered d.book.bids
      × IsOrdered d.book.asks
      × (1 ≤ d.book.max_book_levels)

  widen-Cached :
      (d : FlashCrashDetector F) (stale : Bool) (side price qty : ℕ)
      → Cached d
      → Cached (widen d stale side price qty)
  unfolding widen
  widen-Cached d true side price qty c = c
  widen-Cached d false side price qty c =
      elim (Bool-cases (d.band_depth_valid && in_band_same_side d side price)) [
        | inl inside ↦ rw inside c
        | inr outside ↦ rw outside c
      ]

  narrow-Cached :
      (d : FlashCrashDetector F) (stale : Bool) (side price removed : ℕ)
      → Cached d
      → Cached (narrow d stale side price removed)
  unfolding narrow
  narrow-Cached d true side price removed c = c
  narrow-Cached d false side price removed c =
      elim (Bool-cases (d.band_depth_valid && (ltb 0 removed && in_band_same_side d side price))) [
        | inl inside ↦ rw inside c
        | inr outside ↦ rw outside c
      ]

  with_level-Cached :
      (d : FlashCrashDetector F) (side price v : ℕ)
      → Cached d
      → Cached (with_level d side price (Map.insert price v (side_of d.book side)))
  unfolding with_level set_side side_of best_bid best_ask
  with_level-Cached d side price v (b, a, ob, oa, room) =
      let limit = d.book.max_book_levels in
      elim (Bool-cases (side == 0)) [
        | inl bid ↦
            let new : ((if improves side price d.cached_bb then some price else d.cached_bb)
                  ≡ last_price (prune_levels (Map.insert price v d.book.bids) side limit))
                × IsOrdered (prune_levels (Map.insert price v d.book.bids) side limit) =
              rw bid at (new_best side price v limit d.book.bids d.cached_bb room ob (rw bid b)) in
            rw bid (new.0, a, new.1, oa, room)
        | inr ask ↦
            let new : ((if improves side price d.cached_ba then some price else d.cached_ba)
                  ≡ first_price (prune_levels (Map.insert price v d.book.asks) side limit))
                × IsOrdered (prune_levels (Map.insert price v d.book.asks) side limit) =
              rw ask at (new_best side price v limit d.book.asks d.cached_ba room oa (rw ask a)) in
            rw ask (b, new.0, ob, new.1, room)
      ]

  pub crash_add-Cached :
      (d : FlashCrashDetector F) (side price qty : ℕ)
      → Cached d
      → Cached (crash_add d side price qty)
  unfolding crash_add
  crash_add-Cached d side price qty c =
      widen-Cached _ _ side price qty (with_level-Cached d side price _ c)

  sub_bid-Cached :
      (d : FlashCrashDetector F) (price qty entry : ℕ)
      → Cached d
      → Map.get price (side_of d.book 0) ≡ some entry
      → Cached (crash_sub_entry d 0 price qty (some entry))
  unfolding crash_sub_entry without_level set_side side_of best_bid best_ask
  sub_bid-Cached d price qty entry (b, a, ob, oa, room) g = narrow-Cached _ _ 0 price _ (
    sub_level-best 0 price qty entry d.book.bids d.cached_bb ob g b,
    never (entry - taken qty entry == 0) _ _ ∙ a,
    sub_level-IsOrdered price qty entry d.book.bids ob,
    oa,
    room,
  )

  sub_ask-Cached :
      (d : FlashCrashDetector F) (price qty entry : ℕ)
      → Cached d
      → Map.get price (side_of d.book 1) ≡ some entry
      → Cached (crash_sub_entry d 1 price qty (some entry))
  unfolding crash_sub_entry without_level set_side side_of best_bid best_ask
  sub_ask-Cached d price qty entry (b, a, ob, oa, room) g = narrow-Cached _ _ 1 price _ (
    never (entry - taken qty entry == 0) _ _ ∙ b,
    sub_level-best 1 price qty entry d.book.asks d.cached_ba oa g a,
    ob,
    sub_level-IsOrdered price qty entry d.book.asks oa,
    room,
  )

  sub_entry-Cached :
      (d : FlashCrashDetector F) (side price qty : ℕ) (o : Option ℕ)
      → (side ≡ 0) ⊎ (side ≡ 1)
      → Map.get price (side_of d.book side) ≡ o
      → Cached d
      → Cached (crash_sub_entry d side price qty o)
  unfolding crash_sub_entry
  sub_entry-Cached d side price qty none s g c = c
  sub_entry-Cached d side price qty (some entry) (inl s) g c =
      subst
        (λ k.
          Map.get price (side_of d.book k) ≡ some entry
          → Cached (crash_sub_entry d k price qty (some entry)))
        (sym s) (sub_bid-Cached d price qty entry c) g
  sub_entry-Cached d side price qty (some entry) (inr s) g c =
      subst
        (λ k.
          Map.get price (side_of d.book k) ≡ some entry
          → Cached (crash_sub_entry d k price qty (some entry)))
        (sym s) (sub_ask-Cached d price qty entry c) g

  pub crash_sub-Cached :
      (d : FlashCrashDetector F) (side price qty : ℕ)
      → (side ≡ 0) ⊎ (side ≡ 1)
      → Cached d
      → Cached (crash_sub d side price qty)
  unfolding crash_sub
  crash_sub-Cached d side price qty s c =
      sub_entry-Cached d side price qty (Map.get price (side_of d.book side)) s refl c

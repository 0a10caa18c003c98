-- ===== src/Ladder.antt =====
-- Price levels, and lists of them in the order of the book: bids descend, asks ascend. The
-- direction is the Boolean `is_bid` of core/src/hot_book.rs.
pub mod Position
pub mod Update
pub mod Extensional
use flowlab.Prelude.{
  ℕ, Bool, true, ◌≡◌, Option, none, some, List, [], ◌∷◌, All, ltb, ◌==◌, if◌then◌else◌,
}

-- `hot_book::Level`, less the padding that is always 0, and `orderbook::Level`, which has the
-- same fields.
pub record Level : Type 0 where
  pub price : ℕ
  pub total_qty : ℕ
  pub order_count : ℕ

-- The price `a` stands before `b` on its side.
abbrev pub before : Bool → ℕ → ℕ → Bool
before is_bid a b = if is_bid then ltb b a else ltb a b

abbrev pub Before : Bool → ℕ → ℕ → Type 0
Before is_bid a b = before is_bid a b ≡ true

-- Best price first, and no price twice.
abbrev pub IsSorted : Bool → List Level → Type 0
IsSorted is_bid [] = Unit
IsSorted is_bid (l ∷ ls) =
    All (λ (m : Level). Before is_bid l.price m.price) ls × IsSorted is_bid ls

-- The level at a price.
unfoldable pub lookup : ℕ → List Level → Option Level
lookup p [] = none
lookup p (l ∷ ls) = if l.price == p then some l else lookup p ls

-- ===== src/Chaos/MiniBook.antt =====
-- The book of two price maps that chaos/src/momentum_ignition.rs and chaos/src/latency_arb_proxy.rs
-- each keep, in the same words: `add_qty`, `sub_qty`, `prune_levels`, the best prices and the mid.
use flowlab.Prelude.{
  u32_mod, ◌*◌, ℕ, zero, suc, ◌-◌, ◌/◌, Option, none, some, [], leb, ◌==◌, if◌then◌else◌, length,
  add_u64, min,
}
use flowlab.Map
use flowlab.Map.{Map}

pub record MiniBook : Type 0 where
  pub bids : Map ℕ
  pub asks : Map ℕ
  pub max_book_levels : ℕ

unfoldable pub empty_book : ℕ → MiniBook
empty_book max_book_levels = record { bids = []; asks = []; max_book_levels = max_book_levels }

-- `book_mut`: every side but 0 is the ask side.
unfoldable pub side_of : MiniBook → ℕ → Map ℕ
side_of b side = if side == 0 then b.bids else b.asks

unfoldable pub set_side : MiniBook → ℕ → Map ℕ → MiniBook
set_side b side m = if side == 0 then record b { bids = m } else record b { asks = m }

abbrev pub price_of : Option (ℕ × ℕ) → Option ℕ
price_of none = none
price_of (some (price, qty)) = some price

-- the level farthest from the best of its side
unfoldable pub farthest : ℕ → Map ℕ → Option ℕ
farthest side m = if side == 0 then price_of (Map.first m) else price_of (Map.last m)

abbrev pub without : Map ℕ → Option ℕ → Map ℕ
without m none = m
without m (some price) = Map.remove price m

-- The loop of `prune_levels`, with fuel.
unfoldable pub prune_loop : ℕ → ℕ → ℕ → Map ℕ → Map ℕ
prune_loop zero side cap m = m
prune_loop (suc fuel) side cap m =
    let rest = prune_loop fuel side cap (without m (farthest side m)) in
    if leb (length m) cap then m else rest

-- Each round takes a level away, so the length is fuel enough.
unfoldable pub prune_levels : Map ℕ → ℕ → ℕ → Map ℕ
prune_levels m side cap = prune_loop (length m) side cap m

abbrev pub qty_or_0 : Option ℕ → ℕ
qty_or_0 none = 0
qty_or_0 (some qty) = qty

-- `*entry(price).or_insert(0) += qty`, then `prune_levels`
unfoldable pub add_qty : MiniBook → ℕ → ℕ → ℕ → MiniBook
add_qty b side price qty =
    let m = side_of b side in
    let m' = Map.insert price (add_u64 (qty_or_0 (Map.get price m)) qty) m in
    set_side b side (prune_levels m' side b.max_book_levels)

-- what a level gives up: all of it for a quantity of 0
unfoldable pub taken : ℕ → ℕ → ℕ
taken qty entry = if qty == 0 then entry else min qty entry

unfoldable pub sub_level : ℕ → ℕ → Map ℕ → Option ℕ → Map ℕ
sub_level price qty m none = m
sub_level price qty m (some entry) =
    let left = entry - taken qty entry in
    if left == 0 then Map.remove price m else Map.insert price left m

unfoldable pub sub_qty : MiniBook → ℕ → ℕ → ℕ → MiniBook
sub_qty b side price qty =
    let m = side_of b side in set_side b side (sub_level price qty m (Map.get price m))

unfoldable pub best_bid : MiniBook → Option ℕ
best_bid b = price_of (Map.last b.bids)

unfoldable pub best_ask : MiniBook → Option ℕ
best_ask b = price_of (Map.first b.asks)

-- `midprice`, with the sum of the prices as a `u64`
unfoldable pub mid_of : Option ℕ → Option ℕ → Option ℕ
mid_of (some bid) (some ask) = if leb bid ask then some (add_u64 ask bid / 2) else none
mid_of _ _ = none

unfoldable pub midprice : MiniBook → Option ℕ
midprice b = mid_of (best_bid b) (best_ask b)

-- `bps_move`: the distance of two prices in basis points of the first, at most `u32::MAX`
unfoldable pub bps_move : ℕ → ℕ → ℕ
bps_move from to =
    if from == 0
    then 0
    else min ((if leb from to then to - from else from - to) * 10000 / from) (u32_mod - 1)

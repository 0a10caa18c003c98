-- ===== src/Reference/Reads.antt =====
-- The accessors of `OrderBook` and its `canonical_l2_hash`.
use flowlab.Prelude.{
  ℕ, ◌-◌, Option, none, some, List, [], ◌∷◌, ltb, if◌then◌else◌, add_u64, reverse,
}
use flowlab.Map
use flowlab.Map.{Map}
use flowlab.Ladder.{Level}
use flowlab.Reference.{OrderBook}
use flowlab.Hash.{Xxh3, domain_tag, side_separator, fold_level}

abbrev pub key_of : Option (ℕ × Level) → Option ℕ
key_of none = none
key_of (some (k, l)) = some k

-- `keys().next_back()`
unfoldable pub best_bid : OrderBook → Option ℕ
best_bid b = key_of (Map.last b.bids)

-- `keys().next()`
unfoldable pub best_ask : OrderBook → Option ℕ
best_ask b = key_of (Map.first b.asks)

abbrev pub spread_of : Option ℕ → Option ℕ → Option ℕ
spread_of (some bid) (some ask) = if ltb bid ask then some (ask - bid) else none
spread_of _ _ = none

unfoldable pub spread : OrderBook → Option ℕ
unfolding best_bid best_ask
spread b = spread_of (best_bid b) (best_ask b)

-- `values().map(|l| l.total_qty).sum()`, which wraps like `+`
unfoldable pub sum_qty : ℕ → List Level → ℕ
sum_qty acc [] = acc
sum_qty acc (l ∷ ls) = sum_qty (add_u64 acc l.total_qty) ls

unfoldable pub bid_depth : OrderBook → ℕ
unfolding sum_qty
bid_depth b = sum_qty 0 (Map.values b.bids)

unfoldable pub ask_depth : OrderBook → ℕ
unfolding sum_qty
ask_depth b = sum_qty 0 (Map.values b.asks)

-- each of the two loops over the entries, which reads the price from the key
unfoldable pub fold_entries : Xxh3 → ℕ → Map Level → ℕ
fold_entries x h [] = h
fold_entries x h ((price, l) ∷ m) = fold_entries x (fold_level x h price l.total_qty) m

unfoldable pub canonical_l2_hash : Xxh3 → OrderBook → ℕ
unfolding fold_entries
canonical_l2_hash x b =
    let h = fold_entries x (x.xxh3 domain_tag) (reverse b.bids) in
    fold_entries x (x.with_seed side_separator h) b.asks

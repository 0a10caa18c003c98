-- ===== src/Hot/Book/Reads.antt =====
-- The accessors of `HotOrderBook`, `depth_sum` and `canonical_l2_hash`.
use flowlab.Prelude.{
  ℕ, zero, suc, ◌+◌, ◌-◌, ◌*◌, ◌/◌, ◌%◌, Option, none, some, List, [], ◌∷◌, ltb, ◌==◌,
  if◌then◌else◌, min, add_u64,
}
use flowlab.Ladder.{Level}
use flowlab.Hot.Grid.{Grid, level_at, live}
use flowlab.Hot.Slab as OrderSlab
use flowlab.Hot.Slab.{OrderMeta}
use flowlab.Hot.Book.{HotBook}
use flowlab.Hash.{Xxh3, domain_tag, side_separator, fold_level}

best : Grid → Option ℕ
best g = if ltb 0 g.count then some (level_at g.levels 0).price else none

unfoldable pub best_bid : HotBook → Option ℕ
unfolding best
best_bid b = best b.bids

unfoldable pub best_ask : HotBook → Option ℕ
unfolding best
best_ask b = best b.asks

best_size : Grid → ℕ
best_size g = if ltb 0 g.count then (level_at g.levels 0).total_qty else 0

unfoldable pub best_bid_size : HotBook → ℕ
unfolding best_size
best_bid_size b = best_size b.bids

unfoldable pub best_ask_size : HotBook → ℕ
unfolding best_size
best_ask_size b = best_size b.asks

-- the match on `(best_bid, best_ask)`
abbrev pub spread_of : Option ℕ → Option ℕ → Option ℕ
spread_of (some bid) (some ask) = if ltb bid ask then some (ask - bid) else none
spread_of _ _ = none

unfoldable pub spread : HotBook → Option ℕ
unfolding best_bid best_ask
spread b = spread_of (best_bid b) (best_ask b)

unfoldable pub order_meta : HotBook → ℕ → Option OrderMeta
order_meta b oid = OrderSlab.get b.orders oid

abbrev pub bid_count : HotBook → ℕ
bid_count b = b.bids.count

abbrev pub ask_count : HotBook → ℕ
ask_count b = b.asks.count

abbrev pub bid_levels : HotBook → List Level
bid_levels b = live b.bids

abbrev pub ask_levels : HotBook → List Level
ask_levels b = live b.asks

abbrev pub qty_at : List Level → ℕ → ℕ
qty_at levels i = (level_at levels i).total_qty

-- the loop over the chunks of four, with `left` chunks to go from chunk `c`
unfoldable pub depth_chunks : List Level → ℕ → ℕ → ℕ → ℕ → ℕ → ℕ → ℕ × ℕ × ℕ × ℕ
depth_chunks levels zero c d0 d1 d2 d3 = (d0, d1, d2, d3)
depth_chunks levels (suc left) c d0 d1 d2 d3 =
    let base = c * 4 in
    depth_chunks levels left (c + 1) (add_u64 d0 (qty_at levels base))
      (add_u64 d1 (qty_at levels (base + 1))) (add_u64 d2 (qty_at levels (base + 2)))
      (add_u64 d3 (qty_at levels (base + 3)))

-- the `match` on the remainder
unfoldable pub depth_tail : List Level → ℕ → ℕ → ℕ × ℕ × ℕ × ℕ → ℕ × ℕ × ℕ × ℕ
depth_tail levels remainder tail (d0, d1, d2, d3) =
    if remainder == 3
    then (
      add_u64 d0 (qty_at levels tail),
      add_u64 d1 (qty_at levels (tail + 1)),
      add_u64 d2 (qty_at levels (tail + 2)),
      d3,
    )
    else if remainder == 2
    then (add_u64 d0 (qty_at levels tail), add_u64 d1 (qty_at levels (tail + 1)), d2, d3)
    else if remainder == 1
    then (add_u64 d0 (qty_at levels tail), d1, d2, d3)
    else (d0, d1, d2, d3)

-- the prefetch has no effect on the result
unfoldable pub depth_sum : List Level → ℕ → ℕ → ℕ
unfolding depth_chunks depth_tail
depth_sum levels count n =
    let m = min n count in
    let chunks = m / 4 in
    let (d0, d1, d2, d3) =
      depth_tail levels (m % 4) (chunks * 4) (depth_chunks levels chunks 0 0 0 0 0) in
    add_u64 (add_u64 (add_u64 d0 d1) d2) d3

unfoldable pub bid_depth : HotBook → ℕ → ℕ
bid_depth b n = depth_sum b.bids.levels b.bids.count n

unfoldable pub ask_depth : HotBook → ℕ → ℕ
ask_depth b n = depth_sum b.asks.levels b.asks.count n

unfoldable pub total_bid_depth : HotBook → ℕ
unfolding bid_depth
total_bid_depth b = bid_depth b b.bids.count

unfoldable pub total_ask_depth : HotBook → ℕ
unfolding ask_depth
total_ask_depth b = ask_depth b b.asks.count

-- each of the two loops over the levels
unfoldable pub fold_levels : Xxh3 → ℕ → List Level → ℕ
fold_levels x h [] = h
fold_levels x h (l ∷ ls) = fold_levels x (fold_level x h l.price l.total_qty) ls

unfoldable pub canonical_l2_hash : Xxh3 → HotBook → ℕ
unfolding fold_levels
canonical_l2_hash x b =
    let h = fold_levels x (x.xxh3 domain_tag) (bid_levels b) in
    fold_levels x (x.with_seed side_separator h) (ask_levels b)

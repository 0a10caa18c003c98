-- ===== src/Agreement/L2.antt =====
-- The canonical L2 hash of the two books (`cross_impl_l2_hash_agreement` of bench/src/lib.rs).
use flowlab.Prelude.{
  ℕ, ◌≤◌, ◌<◌, ◌≡◌, refl, ap, List, [], ◌∷◌, ◌++◌, All, arith, length, u32_mod, reverse,
  reverse-cons, All-reverse,
}
use flowlab.Event.{Event}
use flowlab.Map
use flowlab.Map.{Map}
use flowlab.Ladder.{Level}
use flowlab.Hash.{Xxh3, domain_tag, fold_level}
use flowlab.Hot.Book as Hot
use flowlab.Hot.Book.Reads.{fold_levels, canonical_l2_hash}
use flowlab.Reference
use flowlab.Reference.Reads
use flowlab.Reference.Reads.{fold_entries}
use flowlab.Agreement.Relation.{Agrees}
use flowlab.Agreement.Room.{IsRegular, StaysWithin, asks_agree, bids_agree}
use flowlab.Agreement.Theorem.{run-Agrees, new-Agrees}

values-append : (m n : Map Level) → Map.values (m ++ n) ≡ Map.values m ++ Map.values n
unfolding Map.values
values-append [] n = refl
values-append ((k, l) ∷ m) n = ap (λ t. l ∷ t) (values-append m n)

values-reverse : (m : Map Level) → Map.values (reverse m) ≡ reverse (Map.values m)
unfolding Map.values
values-reverse [] = refl
values-reverse ((k, l) ∷ m) = rw (reverse-cons, reverse-cons, values-append, values-reverse m)

-- The reference book hashes keys, the hot book the prices inside the levels.
fold_entries-eq :
    (x : Xxh3) (h : ℕ) (m : Map Level)
    → All (λ (e : ℕ × Level). e.1.price ≡ e.0) m
    → fold_entries x h m ≡ fold_levels x h (Map.values m)
unfolding fold_entries fold_levels Map.values
fold_entries-eq x h [] a = refl
fold_entries-eq x h ((k, l) ∷ m) a =
    rw (a.0) (fold_entries-eq x (fold_level x h k l.total_qty) m a.1)

pub hash_of_agreement :
    {max_levels used : ℕ} (x : Xxh3) (h : Hot.HotBook) (r : Reference.OrderBook)
    → Agrees max_levels used h r
    → canonical_l2_hash x h ≡ Reads.canonical_l2_hash x r
unfolding canonical_l2_hash Reads.canonical_l2_hash
hash_of_agreement x h r a = rw (
  fold_entries-eq x (x.xxh3 domain_tag) (reverse r.bids) (All-reverse _ r.bids a.bids.tree.priced),
  values-reverse r.bids,
  ← bids_agree a.bids,
  fold_entries-eq x _ r.asks a.asks.tree.priced,
  ← asks_agree a.asks,
)

-- Under the same conditions the canonical L2 hashes of the two books are equal, whatever hash
-- function xxh3 is.
pub hashes_agree :
    (x : Xxh3) (max_levels id : ℕ) (events : List Event)
    → max_levels < u32_mod
    → All IsRegular events
    → StaysWithin max_levels (Reference.new id) events
    → length events ≤ u32_mod
    → canonical_l2_hash x (Hot.run max_levels (Hot.new max_levels id) events)
      ≡ Reads.canonical_l2_hash x (Reference.run (Reference.new id) events)
hashes_agree x max_levels id events small g w room =
    hash_of_agreement x _ _ (run-Agrees events (new-Agrees max_levels id small) g w (omega arith))

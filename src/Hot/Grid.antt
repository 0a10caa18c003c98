-- ===== src/Hot/Grid.antt =====
-- One side of the hot book: a fixed array of levels with the number in use, and the array code of
-- `add_order`, `find_level`, `cancel_order`, `trade`, `trade_full_fill`, `trade_anon`, `remove_level`
-- and `depth_sum` (core/src/hot_book.rs). `MAX_LEVELS` is the parameter `max_levels`.
pub mod Live
pub mod Laws
pub mod Deduct
pub mod Add
use flowlab.Prelude.{
  ℕ, zero, suc, ◌+◌, ◌-◌, ◌*◌, ◌/◌, ◌%◌, min, Bool, true, false, Option, none, some, List, ◌&&◌,
  ltb, leb, ◌==◌, if◌then◌else◌, get_or, set, take, replicate, copy_within, add_u64, add_u32,
  u32_mod,
}
use flowlab.Ladder.{Level}
use flowlab.Ladder.Position.{position}

-- the pair `(levels, count)` that the code selects by `is_bid`
pub record Grid : Type 0 where
  pub levels : List Level
  pub count : ℕ

-- `Level::default()`
abbrev pub default_level : Level
default_level = record { price = 0; total_qty = 0; order_count = 0 }

-- `levels[i]`; out of range the code would panic, which the validity of the grid rules out
abbrev pub level_at : List Level → ℕ → Level
level_at levels i = get_or levels i default_level

unfoldable pub new_grid : ℕ → Grid
new_grid max_levels = record { levels = replicate max_levels default_level; count = 0 }

-- `bid_levels`, `ask_levels`: the slice of the levels in use
abbrev pub live : Grid → List Level
live g = take g.count g.levels

unfoldable pub find_level : List Level → ℕ → ℕ → Bool → Option ℕ
find_level levels cnt price is_bid =
    let pos = position is_bid price (take cnt levels) in
    if ltb pos cnt && (level_at levels pos).price == price then some pos else none

-- `levels[pos].total_qty += qty; levels[pos].order_count += 1`
abbrev pub merge_order : Level → ℕ → Level
merge_order l qty = record l {
  total_qty = add_u64 l.total_qty qty;
  order_count = add_u32 l.order_count 1;
}

abbrev pub fresh_level : ℕ → ℕ → Level
fresh_level price qty = record { price = price; total_qty = qty; order_count = 1 }

-- the `memmove` that opens a slot at `pos`
unfoldable pub open_slot : List Level → ℕ → ℕ → List Level
open_slot levels cnt pos =
    if ltb pos cnt then copy_within levels pos (pos + 1) (cnt - pos) else levels

-- `add_order`, up to the slab: the flag is `level_ok`
unfoldable pub add_level : ℕ → Grid → Bool → ℕ → ℕ → Bool × Grid
add_level max_levels g is_bid price qty =
    let pos = position is_bid price (take g.count g.levels) in
    if ltb pos g.count && (level_at g.levels pos).price == price
    then (true, record g { levels = set g.levels pos (merge_order (level_at g.levels pos) qty) })
    else if leb max_levels g.count
    then (false, g)
    else (
      true,
      record {
        levels = set (open_slot g.levels g.count pos) pos (fresh_level price qty);
        count = (g.count + 1) % u32_mod;
      },
    )

-- `i < cnt - 1` guards the `memmove`; at `cnt ≡ 0` the subtraction would overflow, which the
-- callers rule out.
unfoldable pub remove_level : Grid → ℕ → Grid
remove_level g i =
    let cnt = g.count in
    let moved =
      if ltb i (cnt - 1) then copy_within g.levels (i + 1) i (cnt - i - 1) else g.levels in
    record { levels = set moved (cnt - 1) default_level; count = cnt - 1 }

-- `levels[i].total_qty = levels[i].total_qty.saturating_sub(qty)`
unfoldable pub deduct_qty : Grid → ℕ → ℕ → Grid
deduct_qty g i qty =
    let l = level_at g.levels i in
    record g { levels = set g.levels i (record l { total_qty = l.total_qty - qty }) }

-- `order_count = order_count.saturating_sub(1)`, and the level goes with its last order
unfoldable pub release_order : Grid → ℕ → Grid
release_order g i =
    let l = level_at g.levels i in
    let g' = record g { levels = set g.levels i (record l { order_count = l.order_count - 1 }) } in
    if (l.order_count - 1) == 0 then remove_level g' i else g'

-- `if let Some(i) = find_level(...) { ...; return true; } false`
abbrev pub if_found : Grid → Option ℕ → (ℕ → Grid) → Bool × Grid
if_found g none update = (false, g)
if_found g (some i) update = (true, update i)

-- the second half of `cancel_order`
unfoldable pub cancel_level : Grid → Bool → ℕ → ℕ → Bool → Bool × Grid
cancel_level g is_bid price qty release_slot =
    if_found g (find_level g.levels g.count price is_bid)
      λ i. if release_slot then release_order (deduct_qty g i qty) i else deduct_qty g i qty

-- the level update of a partial fill, in `trade`
unfoldable pub partial_fill_level : Grid → Bool → ℕ → ℕ → Bool × Grid
partial_fill_level g is_bid price fill =
    if_found g (find_level g.levels g.count price is_bid) (λ i. deduct_qty g i fill)

-- the level update of `trade_full_fill`
unfoldable pub full_fill_level : Grid → Bool → ℕ → ℕ → Bool × Grid
full_fill_level g is_bid price fill =
    if_found g (find_level g.levels g.count price is_bid) λ i. release_order (deduct_qty g i fill) i

-- the level update of `trade_anon`
unfoldable pub anon_fill_level : Grid → Bool → ℕ → ℕ → Bool × Grid
anon_fill_level g is_bid price qty = if_found g (find_level g.levels g.count price is_bid) λ i.
    let g' = deduct_qty g i qty in
    if (level_at g'.levels i).total_qty == 0 then release_order g' i else g'

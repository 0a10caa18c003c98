-- ===== src/Agreement/Relation.antt =====
-- When a hot book and a reference book hold the same: the same level at every price of each side,
-- the same order under every id.
use flowlab.Prelude.{
  ℕ, ◌≤◌, ◌<◌, Bool, true, false, ◌≡◌, Option, none, some, length, ◌==◌, if◌then◌else◌, arith,
  u32_mod, suc,
}
use flowlab.Event.{Side, bid, ask, side_to_u8}
use flowlab.Map
use flowlab.Map.{Map}
use flowlab.Map.Laws as MapLaws
use flowlab.Ladder.{Level, lookup}
use flowlab.Hot.Grid.{Grid, live}
use flowlab.Hot.Grid.Laws as GridLaws
use flowlab.Hot.Grid.Deduct.{Updates}
use flowlab.Hot.Slab as OrderSlab
use flowlab.Hot.Slab.{OrderMeta, OrderSlab}
use flowlab.Hot.Slab.Valid as SlabValid
use flowlab.Hot.Slab.Laws as SlabLaws
use flowlab.Hot.Book.{HotBook, grid, with_grid, is_bid_side}
use flowlab.Reference.{Order, OrderBook, side_levels, with_levels}
use flowlab.Reference.Laws as Levels

pub record SideAgrees (max_levels : ℕ) (d : Bool) (g : Grid) (m : Map Level) : Type 0 where
  pub array : GridLaws.IsValid max_levels d g
  pub tree : Levels.IsValid m
  pub same : (p : ℕ) → lookup p (live g) ≡ Map.get p m

-- The metadata that the slab keeps of an order.
abbrev pub meta_of : Option Order → Option OrderMeta
meta_of none = none
meta_of (some o) = some (record { price = o.price; qty = o.qty; side = side_to_u8 o.side })

pub record OrdersAgree (used : ℕ) (s : OrderSlab) (m : Map Order) : Type 0 where
  pub slab : SlabValid.IsValid s
  pub slots : length s.payload ≤ used
  pub same : (k : ℕ) → OrderSlab.get s k ≡ meta_of (Map.get k m)

pub record Agrees (max_levels used : ℕ) (h : HotBook) (r : OrderBook) : Type 0 where
  pub bids : SideAgrees max_levels true h.bids r.bids
  pub asks : SideAgrees max_levels false h.asks r.asks
  pub orders : OrdersAgree used h.orders r.orders

-- `side == Side::Bid as u8`, of a decoded side
abbrev pub is_bid : Side → Bool
is_bid s = is_bid_side (side_to_u8 s)

module _ {max_levels used : ℕ} where
  pub on_side :
      (s : Side) {h : HotBook} {r : OrderBook}
      → Agrees max_levels used h r
      → SideAgrees max_levels (is_bid s) (grid (is_bid s) h) (side_levels s r)
  on_side bid a = a.bids
  on_side ask a = a.asks

  pub with_side :
      (s : Side) {h : HotBook} {r : OrderBook} (g : Grid) (m : Map Level)
      → Agrees max_levels used h r
      → SideAgrees max_levels (is_bid s) g m
      → Agrees max_levels used (with_grid (is_bid s) h g) (with_levels s r m)
  with_side bid g m a b = record { bids = b; asks = a.asks; orders = a.orders }
  with_side ask g m a b = record { bids = a.bids; asks = b; orders = a.orders }

-- An update of one price on both sides.
pub update_both :
    {max_levels : ℕ} {d : Bool} {p : ℕ} {g : Grid} {m : Map Level} {flag : Bool}
    {level : Option Level} {res : Bool × Grid} (m' : Map Level) (level' : Option Level)
    → SideAgrees max_levels d g m
    → Updates max_levels d p g flag level res
    → Levels.IsValid m'
    → ((q : ℕ) → Map.get q m' ≡ (if p == q then level' else Map.get q m))
    → level ≡ level'
    → SideAgrees max_levels d res.1 m'
update_both m' level' s u v get e = record {
  array = u.valid;
  tree = v;
  same = λ q. ground (arith, u.levels q, get q, s.same q, e);
}

module _ {used : ℕ} {s : OrderSlab} {m : Map Order} (a : OrdersAgree used s m) (k : ℕ) where
  pub remove_both : OrdersAgree used (OrderSlab.remove s k) (Map.remove k m)
  remove_both = record {
    slab = SlabValid.remove-IsValid s k a.slab;
    slots = omega (arith, SlabValid.length-remove s k, a.slots);
    same = λ j. ground (arith, SlabLaws.get-remove s k j, MapLaws.get-remove k j m, a.same j);
  }

  module _ (o : Order) where
    abbrev meta : OrderMeta
    meta = record { price = o.price; qty = o.qty; side = side_to_u8 o.side }

    pub change_both :
        (old : OrderMeta)
        → OrderSlab.get s k ≡ some old
        → OrdersAgree used (OrderSlab.set_meta s k meta) (Map.insert k o m)
    change_both old e = record {
      slab = SlabValid.set_meta-IsValid s k meta a.slab;
      slots = omega (arith, SlabValid.length-set_meta s k meta, a.slots);
      same = λ j. ground (
        arith,
        SlabLaws.get-set_meta s k j meta old a.slab e,
        MapLaws.get-insert k j o m,
        a.same j,
      );
    }

    pub insert_both :
        used < u32_mod → OrdersAgree (suc used) (OrderSlab.insert s k meta) (Map.insert k o m)
    insert_both room = record {
      slab = SlabValid.insert-IsValid s k meta a.slab (omega (arith, a.slots));
      slots = omega (arith, SlabValid.length-insert s k meta, a.slots);
      same = λ j. ground (
        arith,
        SlabLaws.get-insert s k j meta a.slab (omega (arith, a.slots)),
        MapLaws.get-insert k j o m,
        a.same j,
      );
    }

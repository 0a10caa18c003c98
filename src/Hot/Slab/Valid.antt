-- ===== src/Hot/Slab/Valid.antt =====
-- The slab's invariant, which makes its unchecked reads safe, and what keeps it.
use flowlab.Prelude.{
  ℕ, suc, ◌%◌, ◌≤◌, ◌<◌, ◌≡◌, ◌≢◌, none, some, List, arith, inl, inr, set, length, push, pop,
  u32_mod, All, Distinct, Option-cases, Bool-cases, length-set, length-push, pop-eq-push, All-push,
  All-of_push, All-map, Distinct-push, Distinct-of_push, ◌==◌, subst,
}
use flowlab.Map
use flowlab.Map.{Map, IsOrdered}
use flowlab.Map.Laws.{get-insert, get-remove, insert-IsOrdered, remove-IsOrdered}
use flowlab.Hot.Slab.{
  OrderMeta, OrderSlab, empty_slab, insert, set_meta, remove, insert_at_slot, insert_fresh,
}

pub record IsValid (s : OrderSlab) : Type 0 where
  pub in_range : (k slot : ℕ) → Map.get k s.index ≡ some slot → slot < length s.payload
  pub apart : (k j slot : ℕ) → Map.get k s.index ≡ some slot → Map.get j s.index ≡ some slot → k ≡ j
  pub free_in_range : All (λ slot. slot < length s.payload) s.free_list
  pub free_apart :
      (k slot : ℕ) → Map.get k s.index ≡ some slot → All (λ free. slot ≢ free) s.free_list
  pub free_distinct : Distinct s.free_list
  pub ordered : IsOrdered s.index
  pub small : length s.payload ≤ u32_mod

pub empty_slab-IsValid : IsValid empty_slab
unfolding Map.get
empty_slab-IsValid = record {
  in_range = λ k slot e. cc;
  apart = λ k j slot e h. cc;
  free_in_range = tt;
  free_apart = λ k slot e. cc;
  free_distinct = tt;
  ordered = tt;
  small = omega arith;
}

-- a write to the payload
payload-IsValid :
    (s : OrderSlab) (slot : ℕ) (m : OrderMeta)
    → IsValid s
    → IsValid (record s { payload = set s.payload slot m })
payload-IsValid s slot m v = record {
  in_range = λ k t e. omega (arith, v.in_range k t e, length-set s.payload slot m);
  apart = v.apart;
  free_in_range =
      All-map (λ t. t < length s.payload) (λ t. t < length (set s.payload slot m)) s.free_list
        (λ t h. omega (arith, length-set s.payload slot m)) v.free_in_range;
  free_apart = v.free_apart;
  free_distinct = v.free_distinct;
  ordered = v.ordered;
  small = omega (arith, v.small, length-set s.payload slot m);
}

pub set_meta-IsValid :
    (s : OrderSlab) (k : ℕ) (m : OrderMeta) → IsValid s → IsValid (set_meta s k m)
unfolding set_meta
set_meta-IsValid s k m v = elim (Option-cases (Map.get k s.index)) [
  | inl e ↦ rw (e, set_meta) v
  | inr (slot, e) ↦ rw (e, set_meta) (payload-IsValid s slot m v)
]

pub remove-IsValid : (s : OrderSlab) (k : ℕ) → IsValid s → IsValid (remove s k)
unfolding remove
remove-IsValid s k v = elim (Option-cases (Map.get k s.index)) [
  | inl e ↦ rw (e, remove) v
  | inr (slot, e) ↦
      rw (e, remove)
        (record {
          in_range = λ j t h. ground (arith, get-remove k j s.index, v.in_range j t);
          apart = λ i j t h g.
              ground (arith, get-remove k i s.index, get-remove k j s.index, v.apart i j t);
          free_in_range =
              All-push (λ t. t < length s.payload) s.free_list slot v.free_in_range
                (v.in_range k slot e);
          free_apart = λ j t h.
              All-push (λ f. t ≢ f) s.free_list slot
                (v.free_apart j t (ground (arith, get-remove k j s.index)))
                (ground (arith, get-remove k j s.index, v.apart j k t));
          free_distinct = Distinct-push s.free_list slot v.free_distinct (v.free_apart k slot e);
          ordered = remove-IsOrdered k s.index v.ordered;
          small = v.small;
        })
]

-- a slot from the free list
reuse-IsValid :
    (s : OrderSlab) (k slot : ℕ) (rest : List ℕ) (m : OrderMeta)
    → IsValid s
    → Map.get k s.index ≡ none
    → s.free_list ≡ push rest slot
    → IsValid (insert_fresh s k m (some (rest, slot)))
unfolding insert_fresh
reuse-IsValid s k slot rest m v e f =
    let within : All (λ t. t < length s.payload) rest × (slot < length s.payload) =
      All-of_push (λ t. t < length s.payload) rest slot
        (subst (All (λ t. t < length s.payload)) f v.free_in_range) in
    let unused : (j t : ℕ) → Map.get j s.index ≡ some t → All (λ free. t ≢ free) rest × (t ≢ slot) =
      λ j t h.
        All-of_push (λ free. t ≢ free) rest slot
          (subst (All (λ free. t ≢ free)) f (v.free_apart j t h)) in
    let once : Distinct rest × All (λ y. slot ≢ y) rest =
      Distinct-of_push rest slot (subst Distinct f v.free_distinct) in
    record {
      in_range = λ j t h. ground (
        arith,
        get-insert k j slot s.index,
        v.in_range j t,
        length-set s.payload slot m,
        within.1,
      );
      apart = λ i j t h g. ground (
        arith,
        get-insert k i slot s.index,
        get-insert k j slot s.index,
        v.apart i j t,
        unused i t,
        unused j t,
      );
      free_in_range =
          All-map (λ t. t < length s.payload) (λ t. t < length (set s.payload slot m)) rest
            (λ t h. omega (arith, length-set s.payload slot m)) within.0;
      free_apart = λ j t h. elim (Bool-cases (k == j)) [
        | inl same ↦
            subst (λ u. All (λ free. u ≢ free) rest) (ground (arith, get-insert k j slot s.index))
              once.1
        | inr other ↦ (unused j t (ground (arith, get-insert k j slot s.index))).0
      ];
      free_distinct = once.0;
      ordered = insert-IsOrdered k slot s.index v.ordered;
      small = omega (arith, v.small, length-set s.payload slot m);
    }

-- a slot at the end of the payload
extend-IsValid :
    (s : OrderSlab) (k : ℕ) (m : OrderMeta)
    → IsValid s
    → Map.get k s.index ≡ none
    → length s.payload < u32_mod
    → IsValid (insert_fresh s k m none)
unfolding insert_fresh
extend-IsValid s k m v e room =
    let n = length s.payload % u32_mod in
    let last : n ≡ length s.payload = omega arith in
    let long : length (push s.payload m) ≡ suc (length s.payload) = length-push s.payload m in
    record {
      in_range = λ j t h. ground (arith, get-insert k j n s.index, v.in_range j t, last, long);
      apart = λ i j t h g. ground (
        arith,
        get-insert k i n s.index,
        get-insert k j n s.index,
        v.apart i j t,
        v.in_range i t,
        v.in_range j t,
        last,
      );
      free_in_range =
          All-map (λ t. t < length s.payload) (λ t. t < length (push s.payload m)) s.free_list
            (λ t h. omega (arith, long)) v.free_in_range;
      free_apart = λ j t h. elim (Bool-cases (k == j)) [
        | inl same ↦
            All-map (λ f. f < length s.payload) (λ f. t ≢ f) s.free_list
              (λ f lt. ground (arith, get-insert k j n s.index, last)) v.free_in_range
        | inr other ↦ v.free_apart j t (ground (arith, get-insert k j n s.index))
      ];
      free_distinct = v.free_distinct;
      ordered = insert-IsOrdered k n s.index v.ordered;
      small = omega (arith, long);
    }

pub insert-IsValid :
    (s : OrderSlab) (k : ℕ) (m : OrderMeta)
    → IsValid s
    → length s.payload < u32_mod
    → IsValid (insert s k m)
unfolding insert
insert-IsValid s k m v room = elim (Option-cases (Map.get k s.index)) [
  | inr (slot, e) ↦ rw (e, insert_at_slot) (payload-IsValid s slot m v)
  | inl e ↦
      rw (e, insert_at_slot)
        (elim (Option-cases (pop s.free_list)) [
          | inl none_free ↦ rw none_free (extend-IsValid s k m v e room)
          | inr ((rest, slot), free) ↦
              rw free (reuse-IsValid s k slot rest m v e (pop-eq-push s.free_list rest slot free))
        ])
]

-- An insertion adds one slot at most, and the other writes none.
pub length-insert :
    (s : OrderSlab) (k : ℕ) (m : OrderMeta) → length (insert s k m).payload ≤ suc (length s.payload)
unfolding insert
length-insert s k m = elim (Option-cases (Map.get k s.index)) [
  | inr (slot, e) ↦ rw (e, insert_at_slot) (omega (arith, length-set s.payload slot m))
  | inl e ↦
      rw (e, insert_at_slot)
        (elim (Option-cases (pop s.free_list)) [
          | inl none_free ↦ rw (none_free, insert_fresh) (omega (arith, length-push s.payload m))
          | inr ((rest, slot), free) ↦
              rw (free, insert_fresh) (omega (arith, length-set s.payload slot m))
        ])
]

pub length-set_meta :
    (s : OrderSlab) (k : ℕ) (m : OrderMeta) → length (set_meta s k m).payload ≡ length s.payload
unfolding set_meta
length-set_meta s k m = elim (Option-cases (Map.get k s.index)) [
  | inl e ↦ rw (e, set_meta)
  | inr (slot, e) ↦ rw (e, set_meta) (length-set s.payload slot m)
]

pub length-remove : (s : OrderSlab) (k : ℕ) → length (remove s k).payload ≡ length s.payload
unfolding remove
length-remove s k = elim (Option-cases (Map.get k s.index)) [
  | inl e ↦ rw (e, remove)
  | inr (slot, e) ↦ rw (e, remove)
]

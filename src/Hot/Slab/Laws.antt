-- ===== src/Hot/Slab/Laws.antt =====
-- The slab as a map from order ids to metadata.
use flowlab.Prelude.{
  ℕ, ◌%◌, ◌<◌, ◌≡◌, ◌≢◌, none, some, List, arith, inl, inr, get_elem?, set, length, get_or,
  get_elem?-eq-get_or, push, pop, u32_mod, All, Option-cases, pop-eq-push, All-of_push, ◌==◌,
  if◌then◌else◌, subst, get_elem?-set_self, get_elem?-set_ne, get_elem?-push, get_elem?-push_last,
}
use flowlab.Map
use flowlab.Map.Laws
use flowlab.Hot.Slab.{
  OrderMeta, OrderSlab, read, insert, get, set_meta, remove, insert_at_slot, insert_fresh,
}
use flowlab.Hot.Slab.Valid.{IsValid}

-- A read never meets a stale slot.
pub get_defined :
    (s : OrderSlab) (k slot : ℕ)
    → IsValid s
    → Map.get k s.index ≡ some slot
    → get s k ≡ some (get_or s.payload slot (record { price = 0; qty = 0; side = 0 }))
unfolding get
get_defined s k slot v e = rw e (get_elem?-eq-get_or s.payload slot _ (v.in_range k slot e))

get_elem?-set :
    (xs : List OrderMeta) (i j : ℕ) (m : OrderMeta)
    → i < length xs
    → get_elem? (set xs i m) j ≡ (if i == j then some m else get_elem? xs j)
get_elem?-set xs i j m h =
    ground (arith, get_elem?-set_self xs i m h, get_elem?-set_ne xs {i = i} {j = j} m)

-- Writing the slot of an id changes that id alone.
read-set :
    (s : OrderSlab) (k slot j : ℕ) (m : OrderMeta)
    → IsValid s
    → Map.get k s.index ≡ some slot
    → read (set s.payload slot m) (Map.get j s.index)
      ≡ (if k == j then some m else read s.payload (Map.get j s.index))
read-set s k slot j m v e = elim (Option-cases (Map.get j s.index)) [
  | inl h ↦ rw h (ground arith)
  | inr (t, h) ↦
      rw h
        (ground (arith, get_elem?-set s.payload slot t m (v.in_range k slot e), v.apart k j slot))
]

pub get-set_meta :
    (s : OrderSlab) (k j : ℕ) (m old : OrderMeta)
    → IsValid s
    → get s k ≡ some old
    → get (set_meta s k m) j ≡ (if k == j then some m else get s j)
unfolding get set_meta
get-set_meta s k j m old v h = elim (Option-cases (Map.get k s.index)) [
  | inl e ↦ absurd (ground arith)
  | inr (slot, e) ↦ rw (e, set_meta) (read-set s k slot j m v e)
]

-- After a removal its id is unknown, and every other id is read as before.
pub get-remove : (s : OrderSlab) (k j : ℕ) → get (remove s k) j ≡ (if k == j then none else get s j)
unfolding get remove
get-remove s k j = elim (Option-cases (Map.get k s.index)) [
  | inl e ↦ rw (e, remove) (ground arith)
  | inr (slot, e) ↦ rw (e, remove) (ground (arith, Map.Laws.get-remove k j s.index))
]

-- the two ways to give a new id a slot
read-reuse :
    (s : OrderSlab) (slot : ℕ) (rest : List ℕ) (k j : ℕ) (m : OrderMeta)
    → IsValid s
    → Map.get k s.index ≡ none
    → s.free_list ≡ push rest slot
    → read (set s.payload slot m) (Map.get j (Map.insert k slot s.index))
      ≡ (if k == j then some m else read s.payload (Map.get j s.index))
read-reuse s slot rest k j m v e f =
    let within : slot < length s.payload =
      (All-of_push (λ t. t < length s.payload) rest slot
        (subst (All (λ t. t < length s.payload)) f v.free_in_range)).1 in
    let unused : (t : ℕ) → Map.get j s.index ≡ some t → t ≢ slot = λ t h.
      (All-of_push (λ free. t ≢ free) rest slot
        (subst (All (λ free. t ≢ free)) f (v.free_apart j t h))).1 in
    rw (Map.Laws.get-insert k j slot s.index) (elim (Option-cases (Map.get j s.index)) [
      | inl h ↦ rw h (ground (arith, get_elem?-set_self s.payload slot m within))
      | inr (t, h) ↦ rw h (
          ground (
            arith,
            get_elem?-set s.payload slot t m within,
            get_elem?-set_self s.payload slot m within,
            unused t h,
          ))
    ])

read-extend :
    (s : OrderSlab) (k j : ℕ) (m : OrderMeta)
    → IsValid s
    → Map.get k s.index ≡ none
    → length s.payload < u32_mod
    → read (push s.payload m) (Map.get j (Map.insert k (length s.payload % u32_mod) s.index))
      ≡ (if k == j then some m else read s.payload (Map.get j s.index))
read-extend s k j m v e room =
    let last : length s.payload % u32_mod ≡ length s.payload = omega arith in
    rw (last, Map.Laws.get-insert k j (length s.payload) s.index)
      (elim (Option-cases (Map.get j s.index)) [
        | inl h ↦ rw h (ground (arith, get_elem?-push_last s.payload m))
        | inr (t, h) ↦ rw h (
            ground (
              arith,
              get_elem?-push_last s.payload m,
              get_elem?-push s.payload t m (v.in_range j t h),
            ))
      ])

-- In a valid slab of fewer than 2 ^ 32 slots, after an insertion its id reads the new metadata,
-- whichever slot it was given, and every other id is read as before.
pub get-insert :
    (s : OrderSlab) (k j : ℕ) (m : OrderMeta)
    → IsValid s
    → length s.payload < u32_mod
    → get (insert s k m) j ≡ (if k == j then some m else get s j)
unfolding get insert
get-insert s k j m v room = elim (Option-cases (Map.get k s.index)) [
  | inr (slot, e) ↦ rw (e, insert_at_slot) (read-set s k slot j m v e)
  | inl e ↦
      rw (e, insert_at_slot)
        (elim (Option-cases (pop s.free_list)) [
          | inl none_free ↦ rw (none_free, insert_fresh) (read-extend s k j m v e room)
          | inr ((rest, slot), free) ↦
              rw (free, insert_fresh)
                (read-reuse s slot rest k j m v e (pop-eq-push s.free_list rest slot free))
        ])
]

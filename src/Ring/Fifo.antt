-- ===== src/Ring/Fifo.antt =====
-- The ring of replay/src/ring_reader.rs delivers what was published, in order, whatever the order of
-- the steps of its two sides; and a reader opens what a writer created.
use flowlab.Prelude.{
  ℕ, zero, suc, ◌+◌, ◌^◌, ◌≤◌, ◌<◌, true, false, ◌≡◌, refl, ◌∙◌, ap, sym, subst, List, [], ◌∷◌,
  ◌++◌, Option, none, some, length, length-append, drop, replicate, length-replicate, ltb, ◌==◌,
  ◌||◌, if◌then◌else◌, arith, Bool-cases, Option-cases, inl, inr, u64_mod, add_u64, add_u64_of_lt,
}
use native.Mathlib.Nat.{pow-le-pow_right}
use flowlab.Ring.{
  Handle, Mapping, RingError, write_copy, is_power_below, create, open_ring, ring_magic,
  data_offset,
}
use flowlab.Ring.Steps.{
  System, Action, copies, publishes, looks, advances, copied, published, advanced, begin_copy,
  begin_look, step, steps, start,
}
use flowlab.Ring.Sound.{handle, Sound, copies-Sound, publishes-Sound, looks-Sound, advances-Sound}

-- What has been published stays.
sent-step : (h : Handle) (a : Action) (s : System) → length s.sent ≤ length (step h a s).sent
unfolding step
sent-step h (copies batch) s = elim (Option-cases s.writing) [
  | inl idle ↦ simp idle (after (write_copy h s.mapping batch))
  | inr (b, busy) ↦ simp busy (omega arith)
]
  where
    after : (r : Option RingError × Mapping) → length s.sent ≤ length (copied batch s r).sent
    after (some e, m) = omega arith
    after (none, m) = omega arith
sent-step h publishes s = after s.writing
  where
    after : (o : Option (List ℕ)) → length s.sent ≤ length (published s o).sent
    after none = omega arith
    after (some batch) = omega (arith, length-append s.sent batch)
sent-step h (looks max_bytes) s = after s.reading
  where
    after : (o : Option (List ℕ)) → length s.sent ≤ length (begin_look h max_bytes s o).sent
    after none = omega arith
    after (some b) = omega arith
sent-step h advances s = after s.reading
  where
    after : (o : Option (List ℕ)) → length s.sent ≤ length (advanced s o).sent
    after none = omega arith
    after (some b) = omega arith

sent-steps :
    (h : Handle) (rest : List Action) (s : System) → length s.sent ≤ length (steps h rest s).sent
unfolding steps
sent-steps h [] s = omega arith
sent-steps h (a ∷ rest) s = omega (arith, sent-step h a s, sent-steps h rest (step h a s))

-- Some queue is sound.
abbrev Holds : ℕ → System → Type 0
Holds cap s = (q : List ℕ) × Sound cap s q

step-Sound :
    (k : ℕ)
    → 2 ^ k < u64_mod
    → (a : Action) (s : System) (q : List ℕ) → Sound (2 ^ k) s q
    → length (step (handle (2 ^ k)) a s).sent < u64_mod
    → Holds (2 ^ k) (step (handle (2 ^ k)) a s)
unfolding step
step-Sound k small (copies batch) s q i few = go s.writing refl
  where
    few_before : length s.sent < u64_mod
    few_before =
        let kept : length s.sent ≤ length (step (handle (2 ^ k)) (copies batch) s).sent =
          sent-step (handle (2 ^ k)) (copies batch) s in
        omega (arith, few, kept)

    go :
        (o : Option (List ℕ))
        → s.writing ≡ o
        → Holds (2 ^ k) (begin_copy (handle (2 ^ k)) batch s o)
    go none idle = (q, copies-Sound k small s q i few_before batch idle)
    go (some b) busy = (q, i)
step-Sound k small publishes s q i few = go s.writing refl few
  where
    go :
        (o : Option (List ℕ))
        → s.writing ≡ o
        → length (published s o).sent < u64_mod
        → Holds (2 ^ k) (published s o)
    go none idle few = (q, i)
    go (some batch) busy few =
        let size = length-append s.sent batch in
        (
          q ++ batch,
          publishes-Sound k small s q i (omega (arith, few, size)) batch busy
              (omega (arith, few, size)),
        )
step-Sound k small (looks max_bytes) s q i few = go s.reading few
  where
    go :
        (o : Option (List ℕ))
        → length (begin_look (handle (2 ^ k)) max_bytes s o).sent < u64_mod
        → Holds (2 ^ k) (begin_look (handle (2 ^ k)) max_bytes s o)
    go none few = (q, looks-Sound k small s q i few max_bytes)
    go (some b) few = (q, i)
step-Sound k small advances s q i few = go s.reading refl few
  where
    go :
        (o : Option (List ℕ))
        → s.reading ≡ o
        → length (advanced s o).sent < u64_mod
        → Holds (2 ^ k) (advanced s o)
    go none idle few = (q, i)
    go (some seen) busy few = (drop (length seen) q, advances-Sound k small s q i few seen busy)

steps-Sound :
    (k : ℕ)
    → 2 ^ k < u64_mod
    → (rest : List Action) (s : System) (q : List ℕ) → Sound (2 ^ k) s q
    → length (steps (handle (2 ^ k)) rest s).sent < u64_mod
    → Holds (2 ^ k) (steps (handle (2 ^ k)) rest s)
unfolding steps
steps-Sound k small [] s q i few = (q, i)
steps-Sound k small (a ∷ rest) s q i few =
    let h = handle (2 ^ k) in
    let (next, j) =
      step-Sound k small a s q i (omega (arith, few, sent-steps h rest (step h a s))) in
    steps-Sound k small rest (step h a s) next j few

power : (bits c : ℕ) → is_power_below bits c ≡ true → (k : ℕ) × (k < bits) × (c ≡ 2 ^ k)
power zero c e = absurd cc
power (suc bits) c e = elim (Bool-cases (c == 2 ^ bits)) [
  | inl here ↦ (bits, omega arith, ground (arith, here))
  | inr other ↦
      let (k, below, same) = power bits c (ground (arith, e, other)) in
      (k, omega (arith, below), same)
]

-- the ring that `create` makes
abbrev fresh : ℕ → Mapping
fresh c = record {
  size = add_u64 data_offset c;
  magic = ring_magic;
  file_capacity = c;
  write_idx = 0;
  read_idx = 0;
  payload = replicate c 0;
}

create-power :
    (c : ℕ) (h : Handle) (m : Mapping)
    → create c ≡ inr (h, m)
    → (is_power_below 64 c ≡ true) × (h ≡ handle c) × (m ≡ fresh c)
create-power c h m e = elim (Bool-cases (is_power_below 64 c)) [
  | inl power_of_two ↦
      let made : create c ≡ inr (handle c, fresh c) = unfold create in rw power_of_two refl in
      (power_of_two, cc, cc)
  | inr no_power ↦
      let failed : create c ≡ inl (RingError.not_power_of_two c) =
        unfold create in rw no_power refl in
      absurd (cc)
]

fresh-Sound : (c : ℕ) → Sound c (start (fresh c)) []
fresh-Sound c = record {
  whole = length-replicate c 0;
  order = refl;
  at_write = refl;
  at_read = refl;
  room = omega arith;
  stored = λ j h. absurd (omega (arith, h));
  peeked = refl;
  peeked_room = omega arith;
}

-- what holds of every sequence of steps
abbrev Fifo : ℕ → Handle → Mapping → Type 0
Fifo c h m =
    (actions : List Action)
    → length (steps h actions (start m)).sent < u64_mod
    → (q : List ℕ) × ((steps h actions (start m)).received ++ q ≡ (steps h actions (start m)).sent)
      × (length q ≤ c)

fresh-Fifo : (k : ℕ) → k < 64 → Fifo (2 ^ k) (handle (2 ^ k)) (fresh (2 ^ k))
fresh-Fifo k below actions few =
    let grows : 2 ^ k ≤ 2 ^ 63 =
      pow-le-pow_right {n = 2} (omega arith) {j = 63} (omega (arith, below)) in
    let (q, i) =
      steps-Sound k (omega (arith, grows)) actions (start (fresh (2 ^ k))) [] (fresh-Sound (2 ^ k))
        few in
    let room = i.room in (q, i.order, omega (arith, room))

-- On a ring that `create` made, whatever the order in which the producer copies and publishes and
-- the consumer looks and advances, the bytes read are the first of the bytes published, in their
-- order, and at most the capacity lies between them, as long as fewer than 2^64 bytes are published.
pub steps-received :
    (c : ℕ) (h : Handle) (m : Mapping) (actions : List Action)
    → create c ≡ inr (h, m)
    → length (steps h actions (start m)).sent < u64_mod
    → (q : List ℕ) × ((steps h actions (start m)).received ++ q ≡ (steps h actions (start m)).sent)
      × (length q ≤ c)
steps-received c h m actions made few =
    let (is_power, same_handle, same_mapping) = create-power c h m made in
    let (k, below, same) = power 64 c is_power in
    subst (λ g. Fifo c g m) (sym same_handle)
      (subst (Fifo c (handle c)) (sym same_mapping)
        (subst (λ d. Fifo d (handle d) (fresh d)) (sym same) (fresh-Fifo k below)))
      actions few

open_ring-fresh :
    (c expected : ℕ)
    → is_power_below 64 c ≡ true
    → c ≤ 2 ^ 63
    → open_ring (fresh c) expected ≡ (
        if expected == 0 || expected == c
        then inr (handle c)
        else inl (RingError.capacity_mismatch c expected))
open_ring-fresh c expected is_power small =
    let size : add_u64 data_offset c ≡ data_offset + c =
      add_u64_of_lt data_offset c (omega (arith, small)) in
    let header : ltb (data_offset + c) data_offset ≡ false = ground arith in
    let payload : ltb (data_offset + c) (data_offset + c) ≡ false = ground arith in
    elim (Bool-cases (expected == 0)) [
      | inl any ↦ unfold open_ring in rw (size, header, is_power, any, payload) refl
      | inr named ↦ elim (Bool-cases (expected == c)) [
        | inl agreed ↦ unfold open_ring in rw (size, header, is_power, named, agreed, payload) refl
        | inr other ↦ unfold open_ring in rw (size, header, is_power, named, other) refl
      ]
    ]

-- A ring that `create` made is opened by a reader that expects its capacity, or any (0), with the
-- same capacity and mask, and refused as a mismatch of the capacities by one that expects another.
pub open_ring-create :
    (c : ℕ) (h : Handle) (m : Mapping) (expected : ℕ)
    → create c ≡ inr (h, m)
    → open_ring m expected ≡ (
        if expected == 0 || expected == c
        then inr h
        else inl (RingError.capacity_mismatch c expected))
open_ring-create c h m expected made =
    let (is_power, same_handle, same_mapping) = create-power c h m made in
    let (k, below, same) = power 64 c is_power in
    let grows : 2 ^ k ≤ 2 ^ 63 =
      pow-le-pow_right {n = 2} (omega arith) {j = 63} (omega (arith, below)) in
    ap (λ n. open_ring n expected) same_mapping
    ∙ open_ring-fresh c expected is_power (omega (arith, grows, same))
    ∙ ap
        (λ g.
          if expected == 0 || expected == c
          then inr g
          else inl (RingError.capacity_mismatch c expected))
        (sym same_handle)

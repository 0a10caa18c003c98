-- ===== src/Itch/Synthetic.antt =====
-- The generator of synthetic streams of replay/src/itch.rs, for the integration benchmark: what it
-- makes is read back to the last message.
use Prim.Native.Nat.{bit_xor}
use flowlab.Prelude.{
  ℕ, zero, suc, ◌+◌, ◌-◌, ◌*◌, ◌/◌, ◌%◌, ◌^◌, ◌≤◌, ◌<◌, max, Bool, true, false, ◌≡◌, refl, ◌∙◌, ap,
  some, List, [], ◌∷◌, ◌++◌, length, swap_remove, All, All-push, All-map, All-take, All-get_or,
  All-set_at, push, ltb, ◌==◌, ◌||◌, if◌then◌else◌, arith, Bool-cases, inl, inr, u64_mod, add_u64,
  add_u64_of_lt, map, length-map,
}
use flowlab.Event.{Event, Side, bid, ask}
use flowlab.Itch.{parse_buffer}
use flowlab.Itch.Emit.{emit_add_order, emit_order_delete, emit_trade}
use flowlab.Itch.Fields.{Command, add, delete, trade, event_of, Fits}
use flowlab.Itch.Buffer.{emit, emit_all, parse_buffer-emit_all}

unfoldable pub next_u64 : ℕ → ℕ
next_u64 x =
    let a = bit_xor x (x * 2 ^ 13 % u64_mod) in
    let b = bit_xor a (a / 2 ^ 7) in bit_xor b (b * 2 ^ 17 % u64_mod)

abbrev pub mid_price : ℕ
mid_price = 1000000

-- the variables of the loop; `rng` is the generator's word, which it also returns
pub record Synthesis : Type 0 where
  pub rng : ℕ
  pub buf : List ℕ
  pub next_id : ℕ
  pub live_ids : List ℕ

abbrev pub is_empty : List ℕ → Bool
is_empty [] = true
is_empty (x ∷ xs) = false

abbrev pub coin_side : ℕ → Side
coin_side r = if r % 2 == 0 then bid else ask

-- The offset, which may be negative, is taken off the middle price in one sum.
unfoldable pub synthesize_add : ℕ → Synthesis → Synthesis
synthesize_add ts s =
    let r1 = next_u64 s.rng in
    let r2 = next_u64 r1 in
    let r3 = next_u64 r2 in
    record {
      rng = r3;
      buf =
          emit_add_order s.buf ts s.next_id (coin_side r3) (r2 % 1000 + 1)
            (max (mid_price + r1 % 50 * 100 - 25 * 100) 1);
      next_id = add_u64 s.next_id 1;
      live_ids = push s.live_ids s.next_id;
    }

unfoldable pub synthesize_delete : ℕ → Synthesis → Synthesis
synthesize_delete ts s =
    let r = next_u64 s.rng in
    let (id, rest) = swap_remove s.live_ids (r % length s.live_ids) 0 in
    record s { rng = r; buf = emit_order_delete s.buf ts id; live_ids = rest }

unfoldable pub synthesize_trade : ℕ → Synthesis → Synthesis
synthesize_trade ts s =
    let r1 = next_u64 s.rng in
    let r2 = next_u64 r1 in
    record s {
      rng = r2;
      buf = emit_trade s.buf ts s.next_id (coin_side r2) (r1 % 200 + 1) mid_price;
    }

-- The body of the loop at round `i`.
unfoldable pub synthesize : ℕ → Synthesis → Synthesis
synthesize i s =
    let r = next_u64 s.rng in
    let kind = r % 100 in
    let ts = i * 1000 % u64_mod in
    let t = record s { rng = r } in
    if ltb kind 60 || is_empty s.live_ids
    then synthesize_add ts t
    else if ltb kind 85
    then synthesize_delete ts t
    else synthesize_trade ts t

-- `n` rounds from round `i` on
unfoldable pub synthesize_all : ℕ → ℕ → Synthesis → Synthesis
synthesize_all zero i s = s
synthesize_all (suc n) i s = synthesize_all n (i + 1) (synthesize i s)

unfoldable pub synthetic_itch_stream : ℕ → ℕ → List ℕ
synthetic_itch_stream n_events seed =
    (synthesize_all n_events 0 (record { rng = seed; buf = []; next_id = 1; live_ids = [] })).buf

-- Every live order was numbered, and at most one number is used in a round.
record Numbered (i : ℕ) (s : Synthesis) : Type 0 where
  pub counted : s.next_id ≤ i + 1
  pub live : All (λ id. id < s.next_id) s.live_ids

-- A round writes one message, that fits its fields.
abbrev Writes : ℕ → Synthesis → Synthesis → Type 0
Writes i s t = Numbered (i + 1) t × (c : Command) × (t.buf ≡ emit s.buf c) × Fits c

swap_remove-All :
    (b : ℕ) (xs : List ℕ) (i : ℕ)
    → i < length xs
    → All (λ x. x < b) xs
    → ((swap_remove xs i 0).0 < b) × All (λ x. x < b) (swap_remove xs i 0).1
unfolding swap_remove
swap_remove-All b xs i inside h = (
  All-get_or (λ x. x < b) xs i 0 inside h,
  All-take (λ x. x < b) (length xs - 1) _
      (All-set_at (λ x. x < b) xs i _ (All-get_or (λ x. x < b) xs (length xs - 1) 0 (omega arith) h)
        h),
)

module _ (i ts : ℕ) (s : Synthesis) (time : ts < 2 ^ 48) (few : i * 1000 < 2 ^ 48)
    (numbered : Numbered i s) where
  synthesize_add-Writes : Writes i s (synthesize_add ts s)
  unfolding synthesize_add emit
  synthesize_add-Writes =
      let r1 = next_u64 s.rng in
      let r2 = next_u64 r1 in
      let r3 = next_u64 r2 in
      let counted = numbered.counted in
      let next : add_u64 s.next_id 1 ≡ s.next_id + 1 = add_u64_of_lt s.next_id 1 (omega arith) in
      (
        record {
          counted = omega (arith, next);
          live =
              All-push (λ id. id < add_u64 s.next_id 1) s.live_ids s.next_id
                (All-map (λ id. id < s.next_id) _ s.live_ids (λ x h. omega (arith, next))
                  numbered.live)
                (omega (arith, next));
        },
        add ts s.next_id (coin_side r3) (r2 % 1000 + 1)
            (max (mid_price + r1 % 50 * 100 - 25 * 100) 1),
        refl,
        (time, omega arith, omega arith, omega arith),
      )

  synthesize_trade-Writes : Writes i s (synthesize_trade ts s)
  unfolding synthesize_trade emit
  synthesize_trade-Writes =
      let r1 = next_u64 s.rng in
      let r2 = next_u64 r1 in
      let counted = numbered.counted in
      (
        record { counted = omega arith; live = numbered.live },
        trade ts s.next_id (coin_side r2) (r1 % 200 + 1) mid_price,
        refl,
        (time, omega arith, omega arith, omega arith),
      )

  synthesize_delete-Writes : is_empty s.live_ids ≡ false → Writes i s (synthesize_delete ts s)
  unfolding synthesize_delete emit
  synthesize_delete-Writes some_live =
      let r = next_u64 s.rng in
      let counted = numbered.counted in
      let kept =
        swap_remove-All s.next_id s.live_ids (r % length s.live_ids)
          (index_inside s.live_ids r some_live) numbered.live in
      let known = kept.0 in
      (
        record { counted = omega arith; live = kept.1 },
        delete ts (swap_remove s.live_ids (r % length s.live_ids) 0).0,
        refl,
        (time, omega arith),
      )
    where
      index_inside : (xs : List ℕ) (r : ℕ) → is_empty xs ≡ false → r % length xs < length xs
      index_inside [] r e = absurd cc
      index_inside (x ∷ xs) r e = omega arith

synthesize-Writes :
    (i : ℕ) (s : Synthesis) → i * 1000 < 2 ^ 48 → Numbered i s → Writes i s (synthesize i s)
unfolding synthesize
synthesize-Writes i s few numbered =
    let r = next_u64 s.rng in
    let t = record s { rng = r } in
    let time : i * 1000 % u64_mod < 2 ^ 48 = omega arith in
    let same : Numbered i t = record { counted = numbered.counted; live = numbered.live } in
    elim (Bool-cases (ltb (r % 100) 60)) [
      | inl low ↦ rw low (synthesize_add-Writes i _ t time few same)
      | inr high ↦ elim (Bool-cases (is_empty s.live_ids)) [
        | inl idle ↦ rw (high, idle) (synthesize_add-Writes i _ t time few same)
        | inr some_live ↦ elim (Bool-cases (ltb (r % 100) 85)) [
          | inl low ↦
              rw (high, some_live, low) (synthesize_delete-Writes i _ t time few same some_live)
          | inr most ↦ rw (high, some_live, most) (synthesize_trade-Writes i _ t time few same)
        ]
      ]
    ]

synthesize_all-emit_all :
    (n i : ℕ) (s : Synthesis)
    → (i + n) * 1000 ≤ 2 ^ 48
    → Numbered i s
    → (cs : List Command) × ((synthesize_all n i s).buf ≡ emit_all s.buf cs)
      × (length cs ≡ n)
      × All Fits cs
unfolding synthesize_all emit_all
synthesize_all-emit_all zero i s room numbered = ([], refl, refl, tt)
synthesize_all-emit_all (suc n) i s room numbered =
    let (next, c, wrote, fits) = synthesize-Writes i s (omega arith) numbered in
    let (cs, written, count, all_fit) =
      synthesize_all-emit_all n (i + 1) (synthesize i s) (omega arith) next in
    (c ∷ cs, written ∙ ap (λ b. emit_all b cs) wrote, ap suc count, (fits, all_fit))

-- A synthetic stream of `n` events, for any seed and for times within 48 bits, is parsed to its
-- end: `parse_buffer` counts `n` events, and writes as many behind those that were in `out`.
pub parse_buffer-synthetic_itch_stream :
    (n seed : ℕ) (out : List Event)
    → n * 1000 ≤ 2 ^ 48
    → (es : List Event) × (length es ≡ n)
      × (parse_buffer (synthetic_itch_stream n seed) out ≡ some (inr n, out ++ es))
unfolding synthetic_itch_stream
parse_buffer-synthetic_itch_stream n seed out room =
    let start : Synthesis = record { rng = seed; buf = []; next_id = 1; live_ids = [] } in
    let (cs, written, count, fits) =
      synthesize_all-emit_all n 0 start (omega arith) record { counted = omega arith; live = tt } in
    (
      map event_of cs,
      length-map cs event_of ∙ count,
      ap (λ raw. parse_buffer raw out) written
          ∙ parse_buffer-emit_all cs out fits
          ∙ ap (λ k. some (inr k, out ++ map event_of cs)) count,
    )

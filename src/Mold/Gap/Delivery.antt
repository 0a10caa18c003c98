-- ===== src/Mold/Gap/Delivery.antt =====
-- What the tracker delivers: consecutive sequence numbers, with the payloads that came under them.
use flowlab.Prelude.{
  ℕ, zero, suc, ◌+◌, ◌≤◌, ◌<◌, ◌≡◌, refl, ◌∙◌, ap, ap₂, sym, List, [], ◌∷◌, ltb, leb, ◌==◌, add_u64,
  add_u64_of_lt, push, length, length-push, All, All-map, arith, Bool-cases, inl, inr, map, u64_mod,
  map-append,
}
use flowlab.Map
use flowlab.Map.{Map, IsOrdered}
use flowlab.Map.Laws as MapLaws
use flowlab.Mold.Gap.{
  Payload, Delivered, GapTracker, with_capacity, drain, drained, accepted, opened, has_key, buffer,
  ingest_one, ingest_all,
}

-- `n` numbers from `start`
abbrev pub upto : ℕ → ℕ → List ℕ
upto start zero = []
upto start (suc n) = start ∷ upto (suc start) n

upto-push : (start n : ℕ) → upto start (suc n) ≡ push (upto start n) (start + n)
upto-push start zero = ap (λ k. k ∷ []) (omega arith)
upto-push start (suc n) =
    ap (λ l. start ∷ l) (upto-push (suc start) n ∙ ap (push (upto (suc start) n)) (omega arith))

abbrev pub sequences : List Delivered → List ℕ
sequences = map (λ (d : Delivered). d.sequence)

-- What is pending lies behind a gap, below the last number of 64 bits.
abbrev pub Ahead : ℕ → Map Payload → Type 0
Ahead expected m = All (λ (e : ℕ × Payload). (expected < e.0) × (e.0 + 1 < u64_mod)) m

pub record IsValid (t : GapTracker) : Type 0 where
  pub ordered : IsOrdered t.pending
  pub ahead : Ahead t.expected t.pending

-- The output `out` since the tracker expected `start`.
pub record InOrder (start : ℕ) (t : GapTracker) (out : List Delivered) : Type 0 where
  pub counted : t.expected ≡ start + length out
  pub numbered : sequences out ≡ upto start (length out)

delivered-InOrder :
    {start : ℕ} {t t' : GapTracker} {out : List Delivered} (d : Delivered)
    → InOrder start t out
    → d.sequence ≡ t.expected
    → t'.expected ≡ t.expected + 1
    → InOrder start t' (push out d)
delivered-InOrder {start} {out = out} d o e f = record {
  counted = omega (arith, o.counted, f, length-push out d);
  numbered =
      map-append (λ (e : Delivered). e.sequence) out (d ∷ [])
      ∙ ap₂ (λ l n. push l n) o.numbered (e ∙ o.counted)
      ∙ sym (ap (upto start) (length-push out d) ∙ upto-push start (length out));
}

-- The drain loop starts where the next number may be pending.
abbrev pub Ready : ℕ → Map Payload → Type 0
Ready expected m = All (λ (e : ℕ × Payload). (expected ≤ e.0) × (e.0 + 1 < u64_mod)) m

Ready-after :
    (expected k : ℕ) (m : Map Payload)
    → expected ≤ k
    → MapLaws.Above k m
    → Ready expected m
    → Ahead expected m
Ready-after expected k [] h a r = tt
Ready-after expected k (e ∷ m) h a r = ((omega arith, r.0.1), Ready-after expected k m h a.1 r.1)

Ready-next : (expected : ℕ) (m : Map Payload) → Ahead expected m → Ready (expected + 1) m
Ready-next expected m = All-map _ _ m (λ e h. (omega arith, h.1))

pub record Delivers (start : ℕ) (r : GapTracker × List Delivered) : Type 0 where
  pub valid : IsValid r.0
  pub in_order : InOrder start r.0 r.1

drain-Delivers :
    {start : ℕ} (m : Map Payload) (t : GapTracker) (out : List Delivered)
    → IsOrdered m
    → Ready t.expected m
    → InOrder start t out
    → Delivers start (drain m t out)
unfolding drain
drain-Delivers [] t out o r i = record {
  valid = record { ordered = tt; ahead = tt };
  in_order = record { counted = i.counted; numbered = i.numbered };
}
drain-Delivers {start} ((next, buf) ∷ rest) t out o r i = elim (Bool-cases (next == t.expected)) [
  | inl e ↦
      let counted : add_u64 t.expected 1 ≡ t.expected + 1 =
        add_u64_of_lt t.expected 1 (ground (arith, r.0.1)) in
      rw e (
        drain-Delivers rest (drained t rest) _ o.1
          (rw counted (Ready-next _ rest (Ready-after _ next rest r.0.0 o.0 r.1)))
          (delivered-InOrder (record { sequence = next; payload = buf }) i (ground arith) counted))
  | inr e ↦ rw e (record {
    valid = record {
      ordered = o;
      ahead = ((ground (arith, r.0.0), r.0.1), Ready-after _ next rest r.0.0 o.0 r.1);
    };
    in_order = record { counted = i.counted; numbered = i.numbered };
  })
]

-- `seq + 1` fits 64 bits, for every message
abbrev pub Numbered : ℕ → Type 0
Numbered seq = seq + 1 < u64_mod

buffer-expected :
    (t : GapTracker) (seq : ℕ) (payload : Payload) → (buffer t seq payload).expected ≡ t.expected
unfolding buffer
buffer-expected t seq payload = ground arith

module _ (t : GapTracker) (seq : ℕ) (payload : Payload) (word : Numbered seq) (v : IsValid t) where
  buffer-IsValid : t.expected < seq → IsValid (buffer t seq payload)
  unfolding buffer
  buffer-IsValid h = elim (Bool-cases (leb t.max_buffered (length t.pending))) [
    | inl full ↦ rw full (record { ordered = v.ordered; ahead = v.ahead })
    | inr room ↦ elim (Bool-cases (has_key (Map.get seq t.pending))) [
      | inl known ↦ rw (room, known) (record { ordered = v.ordered; ahead = v.ahead })
      | inr fresh ↦
          rw (room, fresh)
            (record {
              ordered = MapLaws.insert-IsOrdered seq payload t.pending v.ordered;
              ahead = MapLaws.All-insert _ seq payload t.pending (h, word) v.ahead;
            })
    ]
  ]

module _ (t : GapTracker) (seq : ℕ) (payload : Payload) (word : Numbered seq) (v : IsValid t) where
  -- One message keeps the order of what is delivered, whatever its number.
  pub ingest_one-Delivers :
      {start : ℕ} (out : List Delivered)
      → InOrder start t out
      → Delivers start (ingest_one t seq payload out)
  unfolding ingest_one
  ingest_one-Delivers out i = elim (Bool-cases (ltb seq t.expected)) [
    | inl old ↦ rw old (record {
      valid = record { ordered = v.ordered; ahead = v.ahead };
      in_order = record { counted = i.counted; numbered = i.numbered };
    })
    | inr new ↦ elim (Bool-cases (seq == t.expected)) [
      | inl now ↦
          let counted : add_u64 t.expected 1 ≡ t.expected + 1 =
            add_u64_of_lt t.expected 1 (ground (arith, word)) in
          rw (new, now)
            (drain-Delivers t.pending (accepted t) _ v.ordered
              (rw counted (Ready-next t.expected t.pending v.ahead))
              (delivered-InOrder (record { sequence = seq; payload = payload }) i (ground arith)
                counted))
      | inr later ↦
          rw (new, later)
            (record {
              valid =
                  buffer-IsValid (opened t) seq payload word
                    (record { ordered = v.ordered; ahead = v.ahead }) (ground arith);
              in_order = record {
                counted = buffer-expected (opened t) seq payload ∙ i.counted;
                numbered = i.numbered;
              };
            })
    ]
  ]

pub with_capacity-IsValid : (start capacity : ℕ) → IsValid (with_capacity start capacity)
unfolding with_capacity
with_capacity-IsValid start capacity = record { ordered = tt; ahead = tt }

pub ingest_all-Delivers :
    {start : ℕ} (messages : List (ℕ × Payload)) (t : GapTracker) (out : List Delivered)
    → All (λ (m : ℕ × Payload). Numbered m.0) messages
    → IsValid t
    → InOrder start t out
    → Delivers start (ingest_all messages t out)
unfolding ingest_all
ingest_all-Delivers [] t out w v i = record { valid = v; in_order = i }
ingest_all-Delivers ((seq, payload) ∷ rest) t out w v i =
    let d = ingest_one-Delivers t seq payload w.0 v out i in
    ingest_all-Delivers rest _ _ w.1 d.valid d.in_order

-- Whatever messages come in whatever order, repeated or lost, with numbers below 2 ^ 64 - 1: the
-- numbers delivered are `start`, `start + 1`, … without a gap, and the tracker expects the next.
pub ingest_all-InOrder :
    (start capacity : ℕ) (messages : List (ℕ × Payload))
    → All (λ (m : ℕ × Payload). Numbered m.0) messages
    → let r = ingest_all messages (with_capacity start capacity) [] in
      (sequences r.1 ≡ upto start (length r.1)) × (r.0.expected ≡ start + length r.1)
ingest_all-InOrder start capacity messages w =
    let d =
      ingest_all-Delivers {start = start} messages (with_capacity start capacity) [] w
        (with_capacity-IsValid start capacity)
        (record { counted = unfold with_capacity in omega arith; numbered = refl }) in
    (d.in_order.numbered, d.in_order.counted)

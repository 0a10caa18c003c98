-- ===== src/Mold/Gap/Held.antt =====
-- Within its capacity the tracker loses no message: what was received is delivered as soon as every
-- number before it was received.
use flowlab.Prelude.{
  ℕ, suc, ◌+◌, ◌≤◌, ◌<◌, Bool, true, false, ◌≡◌, refl, none, List, [], ◌∷◌, ltb, leb, ◌==◌, ◌||◌,
  add_u64, add_u64_of_lt, push, length, All, All-map, arith, Bool-cases, inl, inr, u64_mod, leb→le,
}
use flowlab.Map
use flowlab.Map.{Map, IsOrdered}
use flowlab.Map.Laws as MapLaws
use flowlab.Mold.Gap.{
  Payload, Delivered, GapTracker, with_capacity, drain, drained, accepted, opened, has_key, buffer,
  ingest_one, ingest_all,
}
use flowlab.Mold.Gap.Delivery.{
  IsValid, InOrder, Numbered, Ahead, ingest_one-Delivers, ingest_all-Delivers,
  with_capacity-IsValid,
}

-- The number has been delivered or is pending.
abbrev held : ℕ → GapTracker → Bool
held s t = ltb s t.expected || has_key (Map.get s t.pending)

abbrev pub received : ℕ → List (ℕ × Payload) → Bool
received s [] = false
received s (m ∷ ms) = (s == m.0) || received s ms

drain-held :
    (m : Map Payload) (t : GapTracker) (out : List Delivered) (s : ℕ)
    → All (λ (e : ℕ × Payload). e.0 + 1 < u64_mod) m
    → (ltb s t.expected || has_key (Map.get s m)) ≡ true
    → held s (drain m t out).0 ≡ true
unfolding drain Map.get
drain-held [] t out s n h = h
drain-held ((next, buf) ∷ rest) t out s n h = elim (Bool-cases (next == t.expected)) [
  | inl e ↦
      let counted : add_u64 t.expected 1 ≡ t.expected + 1 =
        add_u64_of_lt t.expected 1 (ground (arith, n.0)) in
      rw e (drain-held rest (drained t rest) _ s n.1 (rw counted (ground arith)))
  | inr e ↦ rw e h
]

drain-length :
    (m : Map Payload) (t : GapTracker) (out : List Delivered)
    → (length (drain m t out).0.pending ≤ length m)
      × ((drain m t out).0.max_buffered ≡ t.max_buffered)
unfolding drain
drain-length [] t out = (omega arith, refl)
drain-length ((next, buf) ∷ rest) t out =
    let more =
      drain-length rest (drained t rest) (push out (record { sequence = next; payload = buf })) in
    elim (Bool-cases (next == t.expected)) [
      | inl e ↦ rw e (omega (arith, more.0), more.1)
      | inr e ↦ rw e (omega arith, refl)
    ]

module _ (t : GapTracker) (seq : ℕ) (payload : Payload) where
  buffer-held :
      (s : ℕ)
      → length t.pending < t.max_buffered
      → ((s == seq) || held s t) ≡ true
      → held s (buffer t seq payload) ≡ true
  unfolding buffer
  buffer-held s room h = ground (arith, MapLaws.get-insert seq s payload t.pending)

  buffer-length :
      (length (buffer t seq payload).pending ≤ suc (length t.pending))
      × ((buffer t seq payload).max_buffered ≡ t.max_buffered)
  unfolding buffer
  buffer-length = ground (arith, MapLaws.length-insert seq payload t.pending)

module _ (t : GapTracker) (seq : ℕ) (payload : Payload) where
  ingest_one-held :
      (out : List Delivered) (s : ℕ)
      → IsValid t
      → Numbered seq
      → length t.pending < t.max_buffered
      → ((s == seq) || held s t) ≡ true
      → held s (ingest_one t seq payload out).0 ≡ true
  unfolding ingest_one
  ingest_one-held out s v word room h = elim (Bool-cases (ltb seq t.expected)) [
    | inl old ↦ rw old (ground arith)
    | inr new ↦ elim (Bool-cases (seq == t.expected)) [
      | inl now ↦
          let counted : add_u64 t.expected 1 ≡ t.expected + 1 =
            add_u64_of_lt t.expected 1 (ground (arith, word)) in
          rw (new, now)
            (drain-held t.pending (accepted t) _ s (All-map _ _ t.pending (λ e a. a.1) v.ahead)
              (rw counted (ground arith)))
      | inr later ↦ rw (new, later) (buffer-held (opened t) seq payload s room h)
    ]
  ]

  ingest_one-length :
      (out : List Delivered)
      → let t' = (ingest_one t seq payload out).0 in
        (length t'.pending ≤ suc (length t.pending)) × (t'.max_buffered ≡ t.max_buffered)
  unfolding ingest_one
  ingest_one-length out = elim (Bool-cases (ltb seq t.expected)) [
    | inl old ↦ rw old (omega arith, refl)
    | inr new ↦ elim (Bool-cases (seq == t.expected)) [
      | inl now ↦
          let d =
            drain-length t.pending (accepted t)
              (push out (record { sequence = seq; payload = payload })) in
          rw (new, now) (omega (arith, d.0), d.1)
      | inr later ↦ rw (new, later) (buffer-length (opened t) seq payload)
    ]
  ]

ingest_all-held :
    {start : ℕ} (messages : List (ℕ × Payload)) (t : GapTracker) (out : List Delivered) (s : ℕ)
    → All (λ (m : ℕ × Payload). Numbered m.0) messages
    → IsValid t
    → InOrder start t out
    → length t.pending + length messages ≤ t.max_buffered
    → (received s messages || held s t) ≡ true
    → held s (ingest_all messages t out).0 ≡ true
unfolding ingest_all
ingest_all-held [] t out s w v i room h = h
ingest_all-held ((seq, payload) ∷ rest) t out s w v i room h =
    let d = ingest_one-Delivers t seq payload w.0 v out i in
    let l = ingest_one-length t seq payload out in
    ingest_all-held rest _ _ s w.1 d.valid d.in_order (omega (arith, l.0, l.1))
      (elim (Bool-cases ((s == seq) || held s t)) [
        | inl here ↦ ground (arith, ingest_one-held t seq payload out s v w.0 (omega arith) here)
        | inr there ↦ ground arith
      ])

get-Above : (k : ℕ) (m : Map Payload) → Ahead k m → Map.get k m ≡ none
unfolding Map.get
get-Above k [] a = refl
get-Above k ((j, p) ∷ m) a = ground (arith, a.0.0, get-Above k m a.1)

-- If the numbers from `start` up to `start + n` all came in messages, in whatever order and however
-- often, then at least `n` messages have been delivered: `ingest_all-InOrder` says which. The
-- messages are no more than the tracker may buffer, with numbers below 2 ^ 64 - 1.
pub ingest_all-received :
    (start capacity n : ℕ) (messages : List (ℕ × Payload))
    → All (λ (m : ℕ × Payload). Numbered m.0) messages
    → length messages ≤ capacity
    → ((s : ℕ) → start ≤ s → s < start + n → received s messages ≡ true)
    → n ≤ length (ingest_all messages (with_capacity start capacity) []).1
ingest_all-received start capacity n messages w room all =
    let t = with_capacity start capacity in
    let i : InOrder start t [] = record {
      counted = unfold with_capacity in omega arith;
      numbered = refl;
    } in
    let d = ingest_all-Delivers messages t [] w (with_capacity-IsValid start capacity) i in
    let r = ingest_all messages t [] in
    let next_missing : held r.0.expected r.0 ≡ false =
      ground (arith, get-Above r.0.expected r.0.pending d.valid.ahead) in
    elim (Bool-cases (leb n (length r.1))) [
      | inl enough ↦ leb→le n (length r.1) enough
      | inr fewer ↦
          let got : received r.0.expected messages ≡ true =
            all r.0.expected (omega (arith, d.in_order.counted))
              (ground (arith, d.in_order.counted)) in
          let h : held r.0.expected r.0 ≡ true =
            ingest_all-held messages t [] r.0.expected w (with_capacity-IsValid start capacity) i
              (unfold with_capacity in omega (arith, room)) (ground arith) in
          absurd (ground arith)
    ]

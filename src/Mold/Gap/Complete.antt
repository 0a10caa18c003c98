-- ===== src/Mold/Gap/Complete.antt =====
-- No message is lost: what the tracker delivers was received, and what was received is delivered
-- once the gap before it is filled.
use flowlab.Prelude.{ℕ, List, [], ◌∷◌, ltb, ◌==◌, All, All-push, arith, Bool-cases, inl, inr}
use flowlab.Map.{Map}
use flowlab.Map.Laws as MapLaws
use flowlab.Mold.Gap.{
  Payload, Delivered, GapTracker, with_capacity, drain, opened, buffer, ingest_one, ingest_all,
}

abbrev message_of : Delivered → ℕ × Payload
message_of d = (d.sequence, d.payload)

-- `P` holds of everything pending and delivered.
record AllOf {κ} (P : ℕ × Payload → Type κ) (r : GapTracker × List Delivered) : Type κ where
  pending : All P r.0.pending
  delivered : All (λ d. P (message_of d)) r.1

module _ {κ} (P : ℕ × Payload → Type κ) where
  drain-AllOf :
      (m : Map Payload) (t : GapTracker) (out : List Delivered)
      → All P m
      → All (λ d. P (message_of d)) out
      → AllOf P (drain m t out)
  unfolding drain
  drain-AllOf [] t out a d = record { pending = tt; delivered = d }
  drain-AllOf ((next, buf) ∷ rest) t out a d = elim (Bool-cases (next == t.expected)) [
    | inl e ↦ rw e (drain-AllOf rest _ _ a.1 (All-push _ out _ d a.0))
    | inr e ↦ rw e (record { pending = a; delivered = d })
  ]

  buffer-All :
      (t : GapTracker) (seq : ℕ) (payload : Payload)
      → P (seq, payload)
      → All P t.pending
      → All P (buffer t seq payload).pending
  unfolding buffer
  buffer-All t seq payload h a = ground (arith, MapLaws.All-insert P seq payload t.pending h a)

  ingest_one-AllOf :
      (t : GapTracker) (seq : ℕ) (payload : Payload) (out : List Delivered)
      → P (seq, payload)
      → AllOf P (t, out)
      → AllOf P (ingest_one t seq payload out)
  unfolding ingest_one
  ingest_one-AllOf t seq payload out h a = elim (Bool-cases (ltb seq t.expected)) [
    | inl old ↦ rw old (record { pending = a.pending; delivered = a.delivered })
    | inr new ↦ elim (Bool-cases (seq == t.expected)) [
      | inl now ↦
          rw (new, now) (drain-AllOf t.pending _ _ a.pending (All-push _ out _ a.delivered h))
      | inr later ↦
          rw (new, later)
            (record {
              pending = buffer-All (opened t) seq payload h a.pending;
              delivered = a.delivered;
            })
    ]
  ]

  ingest_all-AllOf :
      (messages : List (ℕ × Payload)) (t : GapTracker) (out : List Delivered)
      → All P messages
      → AllOf P (t, out)
      → AllOf P (ingest_all messages t out)
  unfolding ingest_all
  ingest_all-AllOf [] t out h a = a
  ingest_all-AllOf ((seq, payload) ∷ rest) t out h a =
      ingest_all-AllOf rest _ _ h.1 (ingest_one-AllOf t seq payload out h.0 a)

-- What holds of every message received (its number and its payload together) holds of every message
-- delivered, so every payload is delivered under the number that it came with.
pub ingest_all-All :
    (P : ℕ × Payload → Type 0) (start capacity : ℕ) (messages : List (ℕ × Payload))
    → All P messages
    → All
        (λ (d : Delivered). P (d.sequence, d.payload))
        (ingest_all messages (with_capacity start capacity) []).1
unfolding with_capacity
ingest_all-All P start capacity messages h =
    (ingest_all-AllOf P messages (with_capacity start capacity) [] h
      (record { pending = tt; delivered = tt })).delivered

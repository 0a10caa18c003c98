-- ===== src/Mold/Tests.antt =====
-- The theorems on frames and gaps at concrete datagrams: two messages, out of order with a third.
use flowlab.Prelude.{
  ℕ, ◌+◌, ◌≤◌, ◌<◌, ◌≡◌, refl, true, none, some, List, [], ◌∷◌, length, inr, arith, from_be_bytes,
  from_le_bytes,
}
use flowlab.Mold.Gap.{Payload, new, with_capacity, ingest_all}
use flowlab.Mold.Gap.Delivery.{sequences, upto, ingest_all-InOrder}
use flowlab.Mold.Gap.Held.{ingest_all-received, received}
use flowlab.Mold.Frame.{MoldFrame, MoldMessageIter, parse, ingest, ingest_loop}
use flowlab.Mold.Frame.Loop.{numbered, ingest_loop-is_cut_off}
use flowlab.Mold.Frame.Parse.{encode, ingest-encode}

abbrev arrivals : List (ℕ × Payload)
arrivals = (1, 65 ∷ []) ∷ (3, 67 ∷ []) ∷ (3, 67 ∷ []) ∷ (2, 66 ∷ 66 ∷ []) ∷ []

ingest_all-InOrder_example :
    let r = ingest_all arrivals (with_capacity 1 8) [] in
    (sequences r.1 ≡ upto 1 (length r.1)) × (r.0.expected ≡ 1 + length r.1)
ingest_all-InOrder_example = ingest_all-InOrder 1 8 arrivals (omega arith)

all_three : (s : ℕ) → 1 ≤ s → s < 1 + 3 → received s arrivals ≡ true
all_three s low high = ground arith

ingest_all-received_example : 3 ≤ length (ingest_all arrivals (with_capacity 1 8) []).1
ingest_all-received_example =
    ingest_all-received 1 8 3 arrivals (omega arith) (omega arith) all_three

abbrev session : List ℕ
session = 73 ∷ 84 ∷ 67 ∷ 72 ∷ 53 ∷ 48 ∷ 84 ∷ 69 ∷ 83 ∷ 84 ∷ []

abbrev two_messages : List Payload
two_messages = (104 ∷ 105 ∷ []) ∷ (106 ∷ []) ∷ []

ingest-encode_example :
    (f : MoldFrame) × (parse (encode session 100 two_messages) ≡ inr f)
    × (ingest 3 (new 100) f ≡ some (ingest_all (numbered 100 two_messages) (new 100) []))
ingest-encode_example =
    ingest-encode session 100 two_messages (new 100) 3 refl (omega arith) (omega arith)
      (omega arith)

-- The body announces one message of a hundred bytes and holds three.
abbrev cut_off : MoldMessageIter
cut_off = record { body = 0 ∷ 100 ∷ 97 ∷ 98 ∷ 99 ∷ []; offset = 0; next_seq = 1; remaining = 1 }

ingest_loop-is_cut_off_example : ingest_loop 1000 cut_off (new 1) [] ≡ none
ingest_loop-is_cut_off_example =
    ingest_loop-is_cut_off 1000 cut_off (new 1) [] (unfold from_be_bytes from_le_bytes in refl)

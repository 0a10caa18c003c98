-- ===== src/Replay/Tests.antt =====
-- The theorems on a replay at a log of three events, the last out of sequence.
use flowlab.Prelude.{
  ℕ, ◌+◌, ◌≡◌, ◌⊎◌, refl, sym, ◌∙◌, List, [], ◌∷◌, ◌++◌, length, map, inl, inr, arith,
}
use flowlab.Event.{SequencedEvent}
use flowlab.Hash.{Xxh3}
use flowlab.Replay.{replay, new_engine, hash, ReplayError, result_of}
use flowlab.Replay.Log.{after, replay-whole, replay-gap}
use flowlab.Replay.Chain.{hashed, Clash, hash_after, replay-injective}

abbrev toy_hash : Xxh3
toy_hash = record { xxh3 = λ bytes. 7; with_seed = λ bytes seed. seed }

abbrev at : ℕ → ℕ → SequencedEvent
at seq order_id = record {
  seq = seq;
  channel_id = 0;
  event = record {
    ts = 0;
    price = 100;
    qty = 5;
    order_id = order_id;
    instrument_id = 1;
    event_type = 1;
    side = 0;
    pad = 0;
  };
}

abbrev log : List SequencedEvent
log = at 40 7 ∷ at 41 8 ∷ []

replay-whole_example :
    replay toy_hash log (new_engine 1)
    ≡ (inr (result_of (after toy_hash log (new_engine 1))), after toy_hash log (new_engine 1))
replay-whole_example =
    replay-whole toy_hash log (new_engine 1) (unfold new_engine in omega arith)
      (unfold new_engine in omega arith)

replay-gap_example : replay toy_hash (log ++ at 43 9 ∷ at 44 10 ∷ []) (new_engine 1) ≡ (
  inl (ReplayError.gap_at (41 + 1) 43 ((new_engine 1).events_processed + length log)),
  after toy_hash log (new_engine 1),
)
replay-gap_example =
    replay-gap toy_hash log (at 44 10 ∷ []) (at 43 9) (new_engine 1) 41
      (unfold new_engine in omega arith) (unfold new_engine in omega arith) refl (omega arith)
      (omega arith)

abbrev other_log : List SequencedEvent
other_log = at 40 7 ∷ at 41 9 ∷ []

-- The toy hash takes the inputs of the second events to one value.
replay-injective_example :
    ((hash (new_engine 1).state ≡ hash (new_engine 1).state)
      × (map hashed log ≡ map hashed other_log))
    ⊎ Clash toy_hash (hash (new_engine 1).state) (hash (new_engine 1).state) log other_log
replay-injective_example =
    replay-injective toy_hash log other_log (new_engine 1) (new_engine 1) (λ bytes. omega arith)
      (unfold new_engine in omega arith) (unfold new_engine in omega arith)
      (unfold new_engine in omega arith) (unfold new_engine in omega arith) refl
      (hash_after toy_hash log (new_engine 1) (unfold new_engine in omega arith)
          (unfold new_engine in omega arith)
        ∙ sym (
            hash_after toy_hash other_log (new_engine 1) (unfold new_engine in omega arith)
              (unfold new_engine in omega arith)))

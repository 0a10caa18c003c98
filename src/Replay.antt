-- ===== src/Replay.antt =====
-- `ReplayState` of core/src/state.rs and `ReplayEngine` of replay/src/engine.rs. On an error the code
-- returns before it changes the state, so an error carries no state.
pub mod Log
pub mod Chain
mod Tests
use flowlab.Prelude.{
  ℕ, ◌+◌, Option, none, some, List, [], ◌∷◌, ◌++◌, ◌⊎◌, inl, inr, ◌==◌, not, if◌then◌else◌, add_u64,
  le_fields, Field,
}
use flowlab.Event.{Event, SequencedEvent}
use flowlab.Hash.{Xxh3}
use flowlab.Reference
use flowlab.Reference.{OrderBook}

pub record ReplayState : Type 0 where
  pub book : OrderBook
  pub last_seq : Option ℕ
  pub state_hash : ℕ

unfoldable pub new : ℕ → ReplayState
new instrument_id = record { book = Reference.new instrument_id; last_seq = none; state_hash = 0 }

pub data StateError : Type 0 where
  sequence_gap : (expected got : ℕ) → StateError

abbrev pub hash : ReplayState → ℕ
hash s = s.state_hash

-- `bytemuck::bytes_of` of an event, 40 bytes
abbrev pub event_fields : Event → List Field
event_fields e =
    (8, e.ts)
    ∷ (8, e.price)
    ∷ (8, e.qty)
    ∷ (8, e.order_id)
    ∷ (4, e.instrument_id)
    ∷ (1, e.event_type)
    ∷ (1, e.side)
    ∷ (2, e.pad)
    ∷ []

-- the buffer of 56 bytes: the hash so far, the sequence number, the event
abbrev pub hash_input : ℕ → SequencedEvent → List ℕ
hash_input state_hash e = le_fields ((8, state_hash) ∷ (8, e.seq) ∷ event_fields e.event)

-- the test on `last_seq`, with the number that was expected when it fails
abbrev pub unexpected : Option ℕ → ℕ → Option ℕ
unexpected none seq = none
unexpected (some last) seq = if seq == add_u64 last 1 then none else some (add_u64 last 1)

abbrev pub advance : Xxh3 → ReplayState → SequencedEvent → ReplayState
advance x s e = record {
  book = (Reference.apply s.book e.event).1;
  last_seq = some e.seq;
  state_hash = x.xxh3 (hash_input s.state_hash e);
}

unfoldable pub process : Xxh3 → ReplayState → SequencedEvent → StateError ⊎ ReplayState
process x s e = elim (unexpected s.last_seq e.seq) [
  | some expected ↦ inl (StateError.sequence_gap expected e.seq)
  | none ↦ inr (advance x s e)
]

pub record ReplayEngine : Type 0 where
  pub state : ReplayState
  pub events_processed : ℕ

unfoldable pub new_engine : ℕ → ReplayEngine
unfolding new
new_engine instrument_id = record { state = new instrument_id; events_processed = 0 }

abbrev pub state : ReplayEngine → ReplayState
state g = g.state

abbrev pub events_processed : ReplayEngine → ℕ
events_processed g = g.events_processed

pub record ReplayResult : Type 0 where
  pub events_processed : ℕ
  pub final_hash : ℕ
  pub last_seq : ℕ

-- The errors of the file system and of its length are those of `replay_from_file`, which reads the
-- events from a file and numbers them from 1.
pub data ReplayError : Type 0 where
  gap_at : (expected got events_processed : ℕ) → ReplayError

abbrev pub or_zero : Option ℕ → ℕ
or_zero none = 0
or_zero (some n) = n

abbrev pub result_of : ReplayEngine → ReplayResult
result_of g = record {
  events_processed = g.events_processed;
  final_hash = hash g.state;
  last_seq = or_zero g.state.last_seq;
}

unfoldable pub replay :
    Xxh3 → List SequencedEvent → ReplayEngine → (ReplayError ⊎ ReplayResult) × ReplayEngine
replay x [] g = (inr (result_of g), g)
replay x (e ∷ es) g = elim (process x g.state e) [
  | inl (StateError.sequence_gap expected got) ↦
      (inl (ReplayError.gap_at expected got g.events_processed), g)
  | inr s ↦ replay x es (record { state = s; events_processed = add_u64 g.events_processed 1 })
]

-- the loop of `replay_from_file` over the events of the file
abbrev pub number_from : ℕ → List Event → List SequencedEvent
number_from i [] = []
number_from i (e ∷ es) = record { seq = i + 1; channel_id = 0; event = e } ∷ number_from (i + 1) es

-- ===== src/Mold/Gap.antt =====
-- `GapTracker` of replay/src/moldudp.rs: messages in order of their sequence numbers.
pub mod Delivery
pub mod Complete
pub mod Held
use flowlab.Prelude.{
  ℕ, ◌-◌, ◌≤◌, Bool, true, false, Option, none, some, List, [], ◌∷◌, ltb, leb, ◌==◌, if◌then◌else◌,
  add_u64, push, length,
}
use flowlab.Map
use flowlab.Map.{Map}

abbrev pub Payload : Type 0
Payload = List ℕ

pub record GapStats : Type 0 where
  pub in_order_delivered : ℕ
  pub reordered_delivered : ℕ
  pub gaps_opened : ℕ
  pub gaps_closed : ℕ
  pub dropped_overflow : ℕ
  pub duplicates_ignored : ℕ

pub record Delivered : Type 0 where
  pub sequence : ℕ
  pub payload : Payload

pub record GapTracker : Type 0 where
  pub expected : ℕ
  pub pending : Map Payload
  pub max_buffered : ℕ
  pub stats : GapStats

abbrev pub no_stats : GapStats
no_stats = record {
  in_order_delivered = 0;
  reordered_delivered = 0;
  gaps_opened = 0;
  gaps_closed = 0;
  dropped_overflow = 0;
  duplicates_ignored = 0;
}

unfoldable pub with_capacity : ℕ → ℕ → GapTracker
with_capacity start_sequence max_buffered = record {
  expected = start_sequence;
  pending = [];
  max_buffered = max_buffered;
  stats = no_stats;
}

unfoldable pub new : ℕ → GapTracker
unfolding with_capacity
new start_sequence = with_capacity start_sequence 16384

abbrev pub stats : GapTracker → GapStats
stats t = t.stats

abbrev pub expected : GapTracker → ℕ
expected t = t.expected

gap_before : ℕ → Option (ℕ × Payload) → Option (ℕ × ℕ)
gap_before expected none = none
gap_before expected (some (first_buffered, p)) =
    if ltb expected first_buffered then some (expected, first_buffered - 1) else none

unfoldable pub open_gap : GapTracker → Option (ℕ × ℕ)
unfolding gap_before
open_gap t = gap_before t.expected (Map.first t.pending)

-- `gaps_closed += 1`, when something is pending and it is not the next
abbrev pub count_closed : ℕ → Map Payload → GapStats → GapStats
count_closed expected [] s = s
count_closed expected ((next, p) ∷ m) s =
    if next == expected then s else record s { gaps_closed = add_u64 s.gaps_closed 1 }

-- the body of the drain loop, with what is pending after the removal of its first key
abbrev pub drained : GapTracker → Map Payload → GapTracker
drained t rest = record t {
  expected = add_u64 t.expected 1;
  pending = rest;
  stats =
      count_closed (add_u64 t.expected 1) rest
        (record (t.stats) { reordered_delivered = add_u64 t.stats.reordered_delivered 1 });
}

-- The drain loop. `remove` of the first key leaves the rest of the map.
unfoldable pub drain : Map Payload → GapTracker → List Delivered → GapTracker × List Delivered
drain [] t out = (record t { pending = [] }, out)
drain ((next, buf) ∷ rest) t out =
    let more = drain rest (drained t rest) (push out (record { sequence = next; payload = buf })) in
    if next == t.expected then more else (record t { pending = (next, buf) ∷ rest }, out)

-- the message is the next
abbrev pub accepted : GapTracker → GapTracker
accepted t = record t {
  expected = add_u64 t.expected 1;
  stats = record (t.stats) { in_order_delivered = add_u64 t.stats.in_order_delivered 1 };
}

abbrev pub ignored : GapTracker → GapTracker
ignored t = record t {
  stats = record (t.stats) { duplicates_ignored = add_u64 t.stats.duplicates_ignored 1 };
}

-- the first message behind a gap opens it
abbrev pub opened : GapTracker → GapTracker
opened t = record t {
  stats =
      if length t.pending == 0
      then record (t.stats) { gaps_opened = add_u64 t.stats.gaps_opened 1 }
      else t.stats;
}

abbrev pub overflowed : GapTracker → GapTracker
overflowed t = record t {
  stats = record (t.stats) { dropped_overflow = add_u64 t.stats.dropped_overflow 1 };
}

abbrev pub has_key : Option Payload → Bool
has_key none = false
has_key (some p) = true

-- the forward buffer
buffer : GapTracker → ℕ → Payload → GapTracker
buffer t seq payload =
    if leb t.max_buffered (length t.pending)
    then overflowed t
    else if has_key (Map.get seq t.pending)
    then ignored t
    else record t { pending = Map.insert seq payload t.pending }

unfoldable pub ingest_one : GapTracker → ℕ → Payload → List Delivered → GapTracker × List Delivered
unfolding buffer
ingest_one t seq payload out =
    if ltb seq t.expected
    then (ignored t, out)
    else if seq == t.expected
    then drain t.pending (accepted t) (push out (record { sequence = seq; payload = payload }))
    else (buffer (opened t) seq payload, out)

unfoldable pub ingest_single : GapTracker → ℕ → Payload → GapTracker × List Delivered
ingest_single t seq payload = ingest_one t seq payload []

-- one message after the other, all into the same output
unfoldable pub ingest_all :
    List (ℕ × Payload) → GapTracker → List Delivered → GapTracker × List Delivered
ingest_all [] t out = (t, out)
ingest_all ((seq, payload) ∷ rest) t out =
    let (t', out') = ingest_one t seq payload out in ingest_all rest t' out'

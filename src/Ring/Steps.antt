-- ===== src/Ring/Steps.antt =====
-- The two sides of the ring of replay/src/ring_reader.rs as a system of steps, in any order: the
-- producer copies a batch and publishes it, the consumer looks at bytes and advances over them.
use flowlab.Prelude.{ℕ, List, [], ◌∷◌, ◌++◌, Option, none, some, length}
use flowlab.Ring.{Handle, Mapping, RingError, available, advance, write_copy, publish}

-- The mapping; the batch that `write` has copied and not published; the bytes that `read` has copied
-- out and not released; and all that was published and read so far.
pub record System : Type 0 where
  pub mapping : Mapping
  pub writing : Option (List ℕ)
  pub reading : Option (List ℕ)
  pub sent : List ℕ
  pub received : List ℕ

pub data Action : Type 0 where
  copies : List ℕ → Action
  publishes : Action
  looks : (max_bytes : ℕ) → Action
  advances : Action

abbrev pub copied : List ℕ → System → Option RingError × Mapping → System
copied batch s (some e, m) = s
copied batch s (none, m) = record s { mapping = m; writing = some batch }

abbrev pub published : System → Option (List ℕ) → System
published s none = s
published s (some batch) = record s {
  mapping = publish s.mapping.write_idx (length batch) s.mapping;
  writing = none;
  sent = s.sent ++ batch;
}

abbrev pub looked : System → List ℕ × List ℕ → System
looked s (a, b) = record s { reading = some (a ++ b) }

abbrev pub advanced : System → Option (List ℕ) → System
advanced s none = s
advanced s (some seen) = record s {
  mapping = advance (length seen) s.mapping;
  reading = none;
  received = s.received ++ seen;
}

-- A side that is in the middle of a call does not begin another.
abbrev pub begin_copy : Handle → List ℕ → System → Option (List ℕ) → System
begin_copy h batch s none = copied batch s (write_copy h s.mapping batch)
begin_copy h batch s (some b) = s

abbrev pub begin_look : Handle → ℕ → System → Option (List ℕ) → System
begin_look h max_bytes s none = looked s (available h s.mapping max_bytes)
begin_look h max_bytes s (some b) = s

unfoldable pub step : Handle → Action → System → System
step h (copies batch) s = begin_copy h batch s s.writing
step h publishes s = published s s.writing
step h (looks max_bytes) s = begin_look h max_bytes s s.reading
step h advances s = advanced s s.reading

unfoldable pub steps : Handle → List Action → System → System
steps h [] s = s
steps h (a ∷ rest) s = steps h rest (step h a s)

abbrev pub start : Mapping → System
start m = record { mapping = m; writing = none; reading = none; sent = []; received = [] }

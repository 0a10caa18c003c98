-- ===== src/Mold/Frame/Parse.antt =====
-- Frames as a sender writes them, read by `MoldFrame::parse` and taken in by `GapTracker::ingest`.
use flowlab.Prelude.{
  slice, ℕ, ◌+◌, ◌<◌, false, ◌≡◌, refl, ◌∙◌, ap, sym, some, List, [], ◌∷◌, ◌++◌, ltb, length,
  length-append, take, drop, drop-drop, drop-length, take_append_left, to_be_bytes, from_be_bytes,
  from_be_bytes-to_be_bytes, length-to_be_bytes, arith, inr, u64_mod,
}
use flowlab.Mold.Gap.{Payload, GapTracker, ingest_all}
use flowlab.Mold.Frame.{
  MoldFrame, parse, parse_body, header_of, messages, is_heartbeat, is_end_of_session, ingest,
}
use flowlab.Mold.Frame.Loop.{encode_body, numbered, ingest_loop-encode_body}

-- session, sequence of the first message, count, body
abbrev pub encode : List ℕ → ℕ → List Payload → List ℕ
encode session sequence messages =
    session ++ (to_be_bytes 8 sequence ++ (to_be_bytes 2 (length messages) ++ encode_body messages))

abbrev pub frame_of : List ℕ → ℕ → List Payload → MoldFrame
frame_of session sequence messages = record {
  header = record { session = session; sequence = sequence; count = length messages };
  body = encode_body messages;
}

drop_append_left : (n : ℕ) (xs ys : List ℕ) → n ≡ length xs → drop n (xs ++ ys) ≡ ys
drop_append_left n xs ys e = ap (λ k. drop k (xs ++ ys)) e ∙ drop-length xs ys

parse_body-encode :
    (session : List ℕ) (sequence : ℕ) (ms : List Payload)
    → length ms < 65535
    → parse_body (frame_of session sequence ms).header (encode_body ms)
      ≡ inr (frame_of session sequence ms)
unfolding parse_body is_heartbeat is_end_of_session
parse_body-encode session sequence [] few = refl
parse_body-encode session sequence (m ∷ rest) few = ground arith

counted :
    (session : List ℕ) (sequence : ℕ) (ms : List Payload)
    → length ms < 65535
    → (messages (frame_of session sequence ms)).remaining ≡ length ms
unfolding messages is_heartbeat is_end_of_session
counted session sequence ms few = ground arith

module _ (session : List ℕ) (sequence : ℕ) (ms : List Payload) (ten : 10 ≡ length session)
    (few : length ms < 65535) (word : sequence < u64_mod) where
  abbrev datagram : List ℕ
  datagram = encode session sequence ms

  abbrev after_sequence : List ℕ
  after_sequence = to_be_bytes 2 (length ms) ++ encode_body ms

  drop-10 : drop 10 datagram ≡ to_be_bytes 8 sequence ++ after_sequence
  drop-10 = drop_append_left 10 session _ ten

  drop-18 : drop 18 datagram ≡ after_sequence
  drop-18 =
      drop-drop datagram 10 8
      ∙ ap (drop 8) drop-10
      ∙ drop_append_left 8 (to_be_bytes 8 sequence) _ (sym (length-to_be_bytes 8 sequence))

  drop-20 : drop 20 datagram ≡ encode_body ms
  drop-20 =
      drop-drop datagram 18 2
      ∙ ap (drop 2) drop-18
      ∙ drop_append_left 2 (to_be_bytes 2 (length ms)) _ (sym (length-to_be_bytes 2 (length ms)))

  header-encode : header_of datagram ≡ (frame_of session sequence ms).header
  header-encode i = record {
    session = take_append_left 10 session (to_be_bytes 8 sequence ++ after_sequence) ten i;
    sequence = sequence_read i;
    count = count_read i;
  }
    where
      sequence_read : from_be_bytes (slice datagram 10 18) ≡ sequence
      sequence_read =
          ap (λ l. from_be_bytes (take 8 l)) drop-10
          ∙ ap from_be_bytes
              (take_append_left 8 (to_be_bytes 8 sequence) _ (sym (length-to_be_bytes 8 sequence)))
          ∙ from_be_bytes-to_be_bytes 8 sequence word

      count_read : from_be_bytes (slice datagram 18 20) ≡ length ms
      count_read =
          ap (λ l. from_be_bytes (take 2 l)) drop-18
          ∙ ap from_be_bytes (
              take_append_left 2 (to_be_bytes 2 (length ms)) _
                (sym (length-to_be_bytes 2 (length ms))))
          ∙ from_be_bytes-to_be_bytes 2 (length ms) (omega arith)

  long_enough : ltb (length datagram) 20 ≡ false
  long_enough = ground (
    arith,
    length-append session (to_be_bytes 8 sequence ++ after_sequence),
    length-append (to_be_bytes 8 sequence) after_sequence,
    length-append (to_be_bytes 2 (length ms)) (encode_body ms),
    length-to_be_bytes 8 sequence,
    length-to_be_bytes 2 (length ms),
    ten,
  )

  -- A datagram of fewer than 65535 messages, with a session of ten bytes, is parsed as it was
  -- written.
  pub parse-encode : parse datagram ≡ inr (frame_of session sequence ms)
  unfolding parse
  parse-encode =
      rw (long_enough, header-encode, drop-20) (parse_body-encode session sequence ms few)

-- A datagram that a sender wrote with fewer than 65535 messages, all numbers below 2 ^ 64, is parsed,
-- and `ingest` then ends and takes in every message under its number, as `ingest_one` does one after
-- the other. Fuel for one step more than there are messages is enough.
pub ingest-encode :
    (session : List ℕ) (sequence : ℕ) (ms : List Payload) (t : GapTracker) (fuel : ℕ)
    → 10 ≡ length session
    → length ms < 65535
    → sequence + length ms < u64_mod
    → length ms < fuel
    → (f : MoldFrame) × (parse (encode session sequence ms) ≡ inr f)
      × (ingest fuel t f ≡ some (ingest_all (numbered sequence ms) t []))
unfolding ingest messages
ingest-encode session sequence ms t fuel ten few word room = (
  frame_of session sequence ms,
  parse-encode session sequence ms ten few (omega arith),
  ingest_loop-encode_body ms fuel (messages (frame_of session sequence ms)) t [] refl
      (counted session sequence ms few) room word,
)

-- ===== src/Mold/Frame.antt =====
-- `MoldFrame` and `MoldMessageIter` of replay/src/moldudp.rs, and the loop of `GapTracker::ingest`.
pub mod Loop
pub mod Parse
use flowlab.Prelude.{
  slice, ℕ, zero, suc, ◌+◌, ◌-◌, Bool, Option, none, some, List, [], ◌∷◌, ltb, ◌==◌, ◌||◌, not,
  ◌&&◌, if◌then◌else◌, length, take, drop, get_or, from_be_bytes, add_u64, ◌⊎◌, inl, inr,
}
use flowlab.Mold.Gap.{GapTracker, Delivered, ingest_one}

pub data MoldError : Type 0 where
  too_short : (need got : ℕ) → MoldError
  message_overflow : (want offset : ℕ) → MoldError
  trailing_bytes : ℕ → MoldError

pub record MoldHeader : Type 0 where
  pub session : List ℕ
  pub sequence : ℕ
  pub count : ℕ

-- `MoldHeader::SIZE`, `END_OF_SESSION` and `HEARTBEAT`
abbrev pub header_size : ℕ
header_size = 20

abbrev pub end_of_session : ℕ
end_of_session = 65535

abbrev pub heartbeat : ℕ
heartbeat = 0

unfoldable pub is_heartbeat : MoldHeader → Bool
is_heartbeat h = h.count == heartbeat

unfoldable pub is_end_of_session : MoldHeader → Bool
is_end_of_session h = h.count == end_of_session

pub record MoldFrame : Type 0 where
  pub header : MoldHeader
  pub body : List ℕ

abbrev pub header_of : List ℕ → MoldHeader
header_of datagram = record {
  session = take 10 datagram;
  sequence = from_be_bytes (slice datagram 10 18);
  count = from_be_bytes (slice datagram 18 20);
}

abbrev pub no_body : MoldHeader → Bool
no_body h = is_heartbeat h || is_end_of_session h

-- a heartbeat and an end of session have no body
parse_body : MoldHeader → List ℕ → MoldError ⊎ MoldFrame
parse_body header body =
    if no_body header && not (length body == 0)
    then inl (MoldError.trailing_bytes (length body))
    else inr (record { header = header; body = body })

unfoldable pub parse : List ℕ → MoldError ⊎ MoldFrame
unfolding parse_body
parse datagram =
    if ltb (length datagram) header_size
    then inl (MoldError.too_short header_size (length datagram))
    else parse_body (header_of datagram) (drop header_size datagram)

pub record MoldMessageIter : Type 0 where
  pub body : List ℕ
  pub offset : ℕ
  pub next_seq : ℕ
  pub remaining : ℕ

unfoldable pub messages : MoldFrame → MoldMessageIter
messages f = record {
  body = f.body;
  offset = 0;
  next_seq = f.header.sequence;
  remaining = if no_body f.header then 0 else f.header.count;
}

-- `u16::from_be_bytes` of the two bytes at the offset
abbrev pub length_at : List ℕ → ℕ → ℕ
length_at body offset = from_be_bytes (get_or body offset 0 ∷ get_or body (offset + 1) 0 ∷ [])

-- `next`: the item, if there is one, and the iterator after it
unfoldable pub next : MoldMessageIter → Option (MoldError ⊎ (ℕ × List ℕ)) × MoldMessageIter
next it =
    if it.remaining == 0
    then (none, it)
    else if ltb (length it.body) (it.offset + 2)
    then (some (inl (MoldError.too_short 2 (length it.body - it.offset))), it)
    else let len = length_at it.body it.offset in
      let start = it.offset + 2 in
      let end = start + len in
      if ltb (length it.body) end
      then (some (inl (MoldError.message_overflow len it.offset)), it)
      else (
        some (inr (it.next_seq, slice it.body start end)),
        record it { next_seq = add_u64 it.next_seq 1; offset = end; remaining = it.remaining - 1 },
      )

-- The `for` loop of `ingest`, with fuel: `none` is a loop that has not ended.
unfoldable pub ingest_loop :
    ℕ → MoldMessageIter → GapTracker → List Delivered → Option (GapTracker × List Delivered)
ingest_loop zero it t out = none
ingest_loop (suc fuel) it t out =
    let (item, after) = next it in
    elim item [
      | none ↦ some (t, out)
      | some (inl e) ↦ ingest_loop fuel after t out
      | some (inr (seq, payload)) ↦
          let r = ingest_one t seq payload out in ingest_loop fuel after r.0 r.1
    ]

unfoldable pub ingest : ℕ → GapTracker → MoldFrame → Option (GapTracker × List Delivered)
unfolding messages ingest_loop
ingest fuel t frame = ingest_loop fuel (messages frame) t []

-- ===== src/Wal/Reads.antt =====
-- What `next_record` of replay/src/wal.rs gives on a directory of segments: their records in order,
-- past whatever is torn at the end of any of them.
use flowlab.Prelude.{
  ℕ, zero, suc, ◌+◌, ◌-◌, ◌≤◌, ◌<◌, true, false, ◌≡◌, refl, ◌∙◌, ap, sym, subst, Option, none, some,
  List, [], ◌∷◌, ◌++◌, append_assoc, length, length-drop, drop, drop-drop, map, All, All-drop, leb,
  arith, ◌⊎◌, inr,
}
use flowlab.Wal.{WalError, read_record, frame}
use flowlab.Wal.Frames.{IsSmall, frames, read_record-frame}
use flowlab.Wal.Reader.{
  WalReader, open_reader, open_segment, ensure_file, Round, again, returns, round, next_from,
  next_record,
}
use flowlab.Wal.Segments.{
  Segment, bytes, disk, records_of, IsSound, Ascending, get_or-index, read_file-at, length-disk,
}

-- Calls of `next_record` give these records, one after the other, and then the end.
pub data Reads : WalReader → List (List ℕ) → Type 0 where
  ends : {r s : WalReader} → next_record r ≡ some (inr none, s) → Reads r []
  gives :
      {r s : WalReader} {p : List ℕ} {ps : List (List ℕ)}
      → next_record r ≡ some (inr (some p), s)
      → Reads s ps
      → Reads r (p ∷ ps)

Reads-same :
    (r s : WalReader) (ps : List (List ℕ)) → next_record r ≡ next_record s → Reads s ps → Reads r ps
Reads-same r s [] e (ends h) = ends (e ∙ h)
Reads-same r s (p ∷ ps) e (gives h rest) = gives (e ∙ h) rest

-- The reader at segment `k`, with `file` open or none.
module _ (l : List Segment) (sound : All IsSound l) (up : Ascending l) where
  abbrev reader : ℕ → Option (List ℕ) → ℕ → WalReader
  reader k file offset = record {
    dir = disk l;
    segments = map (λ (f : ℕ × List ℕ). f.0) (disk l);
    seg_idx = k;
    file = file;
    segment_offset = offset;
  }

  -- what a call gives before the segments `rest`, from segment `k` on
  abbrev first : List Segment → ℕ → ℕ → Option ((WalError ⊎ Option (List ℕ)) × WalReader)
  first [] k offset = some (inr none, reader k none offset)
  first (s ∷ rest) k offset = elim s.records [
    | [] ↦ first rest (k + 1) 0
    | p ∷ ps ↦ some (inr (some p), reader k (some (frames ps ++ s.tail)) (0 + (8 + length p)))
  ]

  next_from-record :
      (fuel k offset : ℕ) (bs p rest : List ℕ)
      → read_record bs ≡ some (p, rest)
      → next_from (suc fuel) (reader k (some bs) offset)
        ≡ some (inr (some p), reader k (some rest) (offset + (8 + length p)))
  unfolding next_from ensure_file
  next_from-record fuel k offset bs p rest e = rw (next_from, e) refl

  next_from-torn :
      (fuel k offset : ℕ) (bs : List ℕ)
      → read_record bs ≡ none
      → next_from (suc fuel) (reader k (some bs) offset)
        ≡ next_from fuel (reader (k + 1) none offset)
  unfolding next_from ensure_file
  next_from-torn fuel k offset bs e = rw (next_from, e) refl

  ensure_file-end :
      (k offset : ℕ)
      → length l ≤ k
      → ensure_file (reader k none offset) ≡ (inr false, reader k none offset)
  unfolding ensure_file open_segment
  ensure_file-end k offset h =
      let done : leb (length (map (λ (f : ℕ × List ℕ). f.0) (disk l))) k ≡ true =
        ground (arith, length-disk l) in
      rw done refl

  ensure_file-next :
      (k offset : ℕ) (s : Segment) (rest : List Segment)
      → drop k l ≡ s ∷ rest
      → ensure_file (reader k none offset) ≡ (inr true, reader k (some (bytes s)) 0)
  unfolding ensure_file open_segment
  ensure_file-next k offset s rest e =
      let size : length l - k ≡ suc (length rest) = sym (length-drop k l) ∙ ap length e in
      let more : leb (length (map (λ (f : ℕ × List ℕ). f.0) (disk l))) k ≡ false =
        ground (arith, length-disk l) in
      rw (more, get_or-index l k s rest e, read_file-at l k s rest up e) refl

  ensure_file-open :
      (k offset : ℕ) (bs : List ℕ)
      → ensure_file (reader k (some bs) offset) ≡ (inr true, reader k (some bs) offset)
  unfolding ensure_file
  ensure_file-open k offset bs = refl

  abbrev after : ℕ → Round → Option ((WalError ⊎ Option (List ℕ)) × WalReader)
  after fuel x = elim x [ again s ↦ next_from fuel s | returns y s ↦ some (y, s) ]

  next_from-end :
      (fuel k offset : ℕ)
      → length l ≤ k
      → next_from (suc fuel) (reader k none offset) ≡ some (inr none, reader k none offset)
  unfolding next_from
  next_from-end fuel k offset h = ap (λ o. after fuel (round o)) (ensure_file-end k offset h)

  next_from-enter :
      (fuel k offset : ℕ) (s : Segment) (rest : List Segment)
      → drop k l ≡ s ∷ rest
      → next_from (suc fuel) (reader k none offset)
        ≡ next_from (suc fuel) (reader k (some (bytes s)) 0)
  next_from-enter fuel k offset s rest e =
      unfold next_from in
      ap (λ o. after fuel (round o))
        (ensure_file-next k offset s rest e ∙ sym (ensure_file-open k 0 (bytes s)))

  drop-next :
      (k : ℕ) (s : Segment) (rest : List Segment) → drop k l ≡ s ∷ rest → drop (k + 1) l ≡ rest
  drop-next k s rest e = drop-drop l k 1 ∙ ap (drop 1) e

  head-IsSound : (k : ℕ) (s : Segment) (rest : List Segment) → drop k l ≡ s ∷ rest → IsSound s
  head-IsSound k s rest e = (subst (All IsSound) e (All-drop IsSound k l sound)).0

  -- What the segment at hand gives, when the segments behind it are known.
  first-enter :
      (fuel k offset : ℕ) (s : Segment) (rest : List Segment) (ps : List (List ℕ))
      → IsSound s
      → s.records ≡ ps
      → next_from fuel (reader (k + 1) none 0) ≡ first rest (k + 1) 0
      → next_from (suc fuel) (reader k (some (bytes s)) 0) ≡ first (s ∷ rest) k offset
  unfolding frames
  first-enter fuel k offset s rest [] sound none_here later =
      next_from-torn fuel k 0 (bytes s)
        (ap (λ ps. read_record (frames ps ++ s.tail)) none_here ∙ sound.torn)
      ∙ later
      ∙ simp none_here refl
  first-enter fuel k offset s rest (p ∷ ps) sound here later =
      let small : All IsSmall (p ∷ ps) = subst (All IsSmall) here sound.small in
      next_from-record fuel k 0 (bytes s) p (frames ps ++ s.tail) (
        ap (λ qs. read_record (frames qs ++ s.tail)) here
        ∙ ap read_record (append_assoc (frame p) (frames ps) s.tail)
        ∙ read_record-frame p (frames ps ++ s.tail) small.0)
      ∙ simp here refl

  next_from-first :
      (rest : List Segment) (fuel k offset : ℕ)
      → drop k l ≡ rest
      → length rest < fuel
      → next_from fuel (reader k none offset) ≡ first rest k offset
  next_from-first rest zero k offset e room = absurd (omega arith)
  next_from-first [] (suc fuel) k offset e room =
      next_from-end fuel k offset (omega (arith, length-drop k l, ap length e))
  next_from-first (s ∷ rest) (suc fuel) k offset e room =
      next_from-enter fuel k offset s rest e
      ∙ first-enter fuel k offset s rest s.records (head-IsSound k s rest e) refl
          (next_from-first rest fuel (k + 1) 0 (drop-next k s rest e) (omega arith))

  count-segments : (k : ℕ) (rest : List Segment) → drop k l ≡ rest → length rest ≡ length l - k
  count-segments k rest e = sym (ap length e) ∙ length-drop k l

  next_record-first :
      (rest : List Segment) (k offset : ℕ)
      → drop k l ≡ rest
      → next_record (reader k none offset) ≡ first rest k offset
  unfolding next_record
  next_record-first rest k offset e =
      next_from-first rest _ k offset e (omega (arith, count-segments k rest e, length-disk l))

  next_record-record :
      (k offset : ℕ) (bs p rest : List ℕ)
      → read_record bs ≡ some (p, rest)
      → next_record (reader k (some bs) offset)
        ≡ some (inr (some p), reader k (some rest) (offset + (8 + length p)))
  unfolding next_record
  next_record-record k offset bs p rest e = next_from-record _ k offset bs p rest e

  -- From inside a segment, and from the start of one.
  Reads-open :
      (ps : List (List ℕ)) (tail : List ℕ) (k offset : ℕ) (rest : List (List ℕ))
      → All IsSmall ps
      → read_record tail ≡ none
      → k < length l
      → ((o : ℕ) → Reads (reader (k + 1) none o) rest)
      → Reads (reader k (some (frames ps ++ tail)) offset) (ps ++ rest)
  unfolding frames
  Reads-open [] tail k offset rest small torn inside later =
      Reads-same _ (reader (k + 1) none offset) rest (skipped ∙ sym landed) (later offset)
    where
      behind : List Segment
      behind = drop (k + 1) l

      fuel_left : length behind < length (map (λ (f : ℕ × List ℕ). f.0) (disk l))
      fuel_left = omega (arith, count-segments (k + 1) behind refl, length-disk l)

      skipped : next_record (reader k (some tail) offset) ≡ first behind (k + 1) offset
      skipped =
          unfold next_record in
          next_from-torn _ k offset tail torn
          ∙ next_from-first behind _ (k + 1) offset refl fuel_left

      landed : next_record (reader (k + 1) none offset) ≡ first behind (k + 1) offset
      landed = next_record-first behind (k + 1) offset refl
  Reads-open (p ∷ ps) tail k offset rest (s, ss) torn inside later =
      gives
        (next_record-record k offset (frames (p ∷ ps) ++ tail) p (frames ps ++ tail) (
          ap read_record (append_assoc (frame p) (frames ps) tail)
          ∙ read_record-frame p (frames ps ++ tail) s))
        (Reads-open ps tail k (offset + (8 + length p)) rest ss torn inside later)

  Reads-rest :
      (rest : List Segment) (k offset : ℕ)
      → drop k l ≡ rest
      → Reads (reader k none offset) (records_of rest)
  Reads-rest [] k offset e = ends (next_record-first [] k offset e)
  Reads-rest (s ∷ rest) k offset e =
      Reads-same _ (reader k (some (bytes s)) 0) (s.records ++ records_of rest)
        (unfold next_record in next_from-enter _ k offset s rest e)
        (Reads-open s.records s.tail k 0 (records_of rest) sound_head.small sound_head.torn
          (omega (arith, count-segments k (s ∷ rest) e))
          (λ o. Reads-rest rest (k + 1) o (drop-next k s rest e)))
    where
      sound_head : IsSound s
      sound_head = head-IsSound k s rest e

-- On a directory of segments in ascending order, each with whole records and behind them bytes that
-- are none (a record cut off, or of a wrong checksum), a reader gives the records of all segments in
-- their order, one for each call, and then the end, without an error. Every call returns.
pub open_reader-Reads :
    (l : List Segment) → All IsSound l → Ascending l → Reads (open_reader (disk l)) (records_of l)
unfolding open_reader
open_reader-Reads l sound up = Reads-rest l sound up l 0 0 refl

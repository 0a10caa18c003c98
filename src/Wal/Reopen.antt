-- ===== src/Wal/Reopen.antt =====
-- The log of replay/src/wal.rs after a crash: its last segment is torn, and it is opened again.
use flowlab.Prelude.{
  ℕ, ◌+◌, ◌-◌, ◌≤◌, ◌≡◌, refl, ◌∙◌, ap, sym, subst, none, some, List, [], ◌∷◌, ◌++◌, append-nil,
  length, length-append, push, take, All, leb, arith, Bool-cases, inl, inr,
}
use flowlab.Wal.{Dir, Wal, write_file, last_segment, frame, open_or_create, resume}
use flowlab.Wal.Frames.{IsSmall, frames}
use flowlab.Wal.Recover.{whole_records, cut, recover_segment_tail-frames}
use flowlab.Wal.Segments.{
  Segment, bytes, disk, records_of, written, disk-push, last_segment-push, write_file-last,
}
use flowlab.Wal.Reader.{open_reader}
use flowlab.Wal.Reads.{Reads}
use flowlab.Wal.Writer.{Holds}
use flowlab.Wal.Session.{append_all, append_all-AppendedAll, Holds-Reads}

-- The last file, of which only the first `k` bytes were written.
abbrev pub tear : ℕ → Dir → Dir
tear k [] = []
tear k ((i, b) ∷ []) = (i, take k b) ∷ []
tear k (s ∷ t ∷ d) = s ∷ tear k (t ∷ d)

tear-disk :
    (k : ℕ) (l : List Segment) (s : Segment)
    → tear k (disk (push l s)) ≡ push (disk l) (s.index, take k (bytes s))
tear-disk k [] s = refl
tear-disk k (t ∷ []) s = refl
tear-disk k (t ∷ u ∷ l) s = ap (λ d. (t.index, bytes t) ∷ d) (tear-disk k (u ∷ l) s)

-- What is recovered is not more than there was.
length-whole_records : (k : ℕ) (rs : List (List ℕ)) → length (whole_records k rs) ≤ length rs
length-whole_records k [] = omega arith
length-whole_records k (r ∷ rs) =
    let shorter = length-whole_records (k - (8 + length r)) rs in
    elim (Bool-cases (leb (8 + length r) k)) [
      | inl inside ↦ rw inside (omega (arith, shorter))
      | inr outside ↦ rw outside (omega arith)
    ]

length-frames-whole_records :
    (k : ℕ) (rs : List (List ℕ)) → length (frames (whole_records k rs)) ≤ length (frames rs)
unfolding frames
length-frames-whole_records k [] = omega arith
length-frames-whole_records k (r ∷ rs) =
    let shorter = length-frames-whole_records (k - (8 + length r)) rs in
    let whole = length-append (frame r) (frames rs) in
    let part = length-append (frame r) (frames (whole_records (k - (8 + length r)) rs)) in
    elim (Bool-cases (leb (8 + length r) k)) [
      | inl inside ↦ rw inside (omega (arith, shorter, whole, part))
      | inr outside ↦ rw outside (omega arith)
    ]

module _ (w : Wal) (l : List Segment) (rs : List (List ℕ)) (h : Holds w l rs) (k : ℕ) where
  -- the last segment as the crash left it
  abbrev torn : Segment
  torn = record {
    index = w.current_index;
    records = whole_records k rs;
    tail = (cut k rs h.small).tail;
  }

  abbrev reopened : Wal
  reopened = record {
    dir = write_file (tear k w.dir) w.current_index (frames (whole_records k rs));
    segment_size = w.segment_size;
    current_index = w.current_index;
    current_bytes = length (frames (whole_records k rs));
  }

  torn_dir : tear k w.dir ≡ disk (push l torn)
  torn_dir =
      ap (tear k) h.on_disk
      ∙ tear-disk k l (written w.current_index rs)
      ∙ ap (λ b. push (disk l) (w.current_index, b))
          (ap (take k) (append-nil (frames rs)) ∙ (cut k rs h.small).split)
      ∙ sym (disk-push l torn)

  reopens : open_or_create (tear k w.dir) w.segment_size ≡ some reopened
  unfolding open_or_create
  reopens =
      let c = cut k rs h.small in
      rw (open_or_create, ap last_segment torn_dir ∙ last_segment-push l torn)
        (ap (resume (tear k w.dir) w.segment_size w.current_index)
          (recover_segment_tail-frames (whole_records k rs) c.tail c.small c.dead))

  reopened-Holds : Holds reopened l (whole_records k rs)
  reopened-Holds = record {
    on_disk =
        ap (λ d. write_file d w.current_index (frames (whole_records k rs))) torn_dir
        ∙ write_file-last l w.current_index (whole_records k rs) (cut k rs h.small).tail
            (whole_records k rs) _ h.below (sym (append-nil (frames (whole_records k rs))));
    counted = refl;
    below = h.below;
    ordered = h.ordered;
    sound = h.sound;
    small = (cut k rs h.small).small;
    in_size = h.in_size;
    last_in_size = elim h.last_in_size [
      | inl fits ↦ inl (
          omega (
            arith,
            fits,
            length-frames-whole_records k rs,
            length-append (frames rs) [],
            length-append (frames (whole_records k rs)) [],
          ))
      | inr one ↦ inr (omega (arith, one, length-whole_records k rs))
    ];
  }

-- Of a log whose last segment was torn at any byte, all records are kept that lie whole before it:
-- opening it again and appending `qs` succeed, and a reader then gives the records of the closed
-- segments, the whole ones of the last segment and `qs`, and no other, without an error.
pub open_or_create-tear :
    (w : Wal) (l : List Segment) (rs : List (List ℕ)) (k : ℕ) (qs : List (List ℕ))
    → Holds w l rs
    → All IsSmall qs
    → (v : Wal) × (u : Wal) × (open_or_create (tear k w.dir) w.segment_size ≡ some v)
      × (append_all qs v ≡ (none, u))
      × Reads (open_reader u.dir) ((records_of l ++ whole_records k rs) ++ qs)
open_or_create-tear w l rs k qs h small =
    let v = reopened w l rs h k in
    let a = append_all-AppendedAll qs v l (whole_records k rs) (reopened-Holds w l rs h k) small in
    (
      v,
      a.after,
      reopens w l rs h k,
      a.ran,
      subst (Reads (open_reader a.after.dir)) a.contents
          (Holds-Reads a.after a.closed a.current a.holds),
    )

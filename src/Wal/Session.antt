-- ===== src/Wal/Session.antt =====
-- The log of replay/src/wal.rs from its creation on: what was appended is read back.
use flowlab.Prelude.{
  ℕ, ◌≡◌, refl, ◌∙◌, ap, sym, subst, Option, none, some, List, [], ◌∷◌, ◌++◌, append_assoc,
  append-nil, push, All, All-push, arith, inr,
}
use flowlab.Wal.{Wal, WalError, append, open_or_create}
use flowlab.Wal.Frames.{IsSmall, frames, read_record-nil}
use flowlab.Wal.Segments.{
  Segment, disk, records_of, IsSound, written, Ascending-push, records_of-push,
}
use flowlab.Wal.Reader.{open_reader}
use flowlab.Wal.Reads.{Reads, open_reader-Reads}
use flowlab.Wal.Writer.{InSize, Holds, append-Appended}

-- Records appended one after the other, up to the first error.
unfoldable pub append_all : List (List ℕ) → Wal → Option WalError × Wal
append_all [] w = (none, w)
append_all (p ∷ ps) w =
    let (e, v) = append p w in
    let rest = append_all ps v in elim e [ none ↦ rest | some x ↦ (some x, v) ]

-- What appending `ps` leaves of a log with the records `before`.
pub record AppendedAll (w : Wal) (before ps : List (List ℕ)) : Type 0 where
  pub after : Wal
  pub ran : append_all ps w ≡ (none, after)
  pub same_size : after.segment_size ≡ w.segment_size
  pub closed : List Segment
  pub current : List (List ℕ)
  pub holds : Holds after closed current
  pub contents : records_of closed ++ current ≡ before ++ ps

pub append_all-AppendedAll :
    (ps : List (List ℕ)) (w : Wal) (l : List Segment) (rs : List (List ℕ))
    → Holds w l rs
    → All IsSmall ps
    → AppendedAll w (records_of l ++ rs) ps
unfolding append_all
append_all-AppendedAll [] w l rs h small = record {
  after = w;
  ran = refl;
  same_size = refl;
  closed = l;
  current = rs;
  holds = h;
  contents = sym (append-nil (records_of l ++ rs));
}
append_all-AppendedAll (p ∷ ps) w l rs h (s, ss) =
    let a = append-Appended w l rs p h s in
    let b = append_all-AppendedAll ps a.after a.closed a.current a.holds ss in
    record {
      after = b.after;
      ran =
          ap
            (λ (r : Option WalError × Wal). elim r.0 [
              | none ↦ append_all ps r.1
              | some x ↦ (some x, r.1)
            ])
            a.ran
          ∙ b.ran;
      same_size = b.same_size ∙ a.same_size;
      closed = b.closed;
      current = b.current;
      holds = b.holds;
      contents =
          b.contents ∙ ap (λ r. r ++ ps) a.contents ∙ append_assoc (records_of l ++ rs) (p ∷ []) ps;
    }

pub Holds-Reads :
    (w : Wal) (l : List Segment) (rs : List (List ℕ))
    → Holds w l rs
    → Reads (open_reader w.dir) (records_of l ++ rs)
Holds-Reads w l rs h =
    let here = written w.current_index rs in
    subst (λ d. Reads (open_reader d) (records_of l ++ rs)) (sym h.on_disk)
      (subst (Reads (open_reader (disk (push l here)))) (records_of-push l here) (
        open_reader-Reads (push l here)
          (All-push IsSound l here h.sound record { small = h.small; torn = read_record-nil })
          (Ascending-push l here h.ordered h.below)))

-- A log that is created.
abbrev fresh : ℕ → Wal
fresh size = record {
  dir = (0, []) ∷ [];
  segment_size = size;
  current_index = 0;
  current_bytes = 0;
}

fresh-Holds : (size : ℕ) → Holds (fresh size) [] []
unfolding frames
fresh-Holds size = record {
  on_disk = refl;
  counted = refl;
  below = tt;
  ordered = tt;
  sound = tt;
  small = tt;
  in_size = tt;
  last_in_size = inr (omega arith);
}

-- Records of less than 2^32 bytes that are appended to a new log, of any segment size, are read
-- back, the same and in the same order, across all its segments. No operation gives an error.
pub open_reader-append_all :
    (size : ℕ) (ps : List (List ℕ))
    → All IsSmall ps
    → (w : Wal) × (v : Wal) × (open_or_create [] size ≡ some w)
      × (append_all ps w ≡ (none, v))
      × Reads (open_reader v.dir) ps
unfolding open_or_create
open_reader-append_all size ps small =
    let a = append_all-AppendedAll ps (fresh size) [] [] (fresh-Holds size) small in
    (
      fresh size,
      a.after,
      refl,
      a.ran,
      subst (Reads (open_reader a.after.dir)) a.contents
          (Holds-Reads a.after a.closed a.current a.holds),
    )

-- Records appended to a new log lie on disk in segments in their order, and no segment is longer
-- than the segment size, unless it has at most one record.
pub append_all-InSize :
    (size : ℕ) (ps : List (List ℕ))
    → All IsSmall ps
    → (w : Wal) × (v : Wal) × (l : List Segment) × (open_or_create [] size ≡ some w)
      × (append_all ps w ≡ (none, v))
      × (v.dir ≡ disk l)
      × (records_of l ≡ ps)
      × All (InSize size) l
unfolding open_or_create
append_all-InSize size ps small =
    let a = append_all-AppendedAll ps (fresh size) [] [] (fresh-Holds size) small in
    let here = written a.after.current_index a.current in
    let h = a.holds in
    (
      fresh size,
      a.after,
      push a.closed here,
      refl,
      a.ran,
      h.on_disk,
      records_of-push a.closed here ∙ a.contents,
      subst (λ n. All (InSize n) (push a.closed here)) a.same_size
          (All-push (InSize a.after.segment_size) a.closed here h.in_size h.last_in_size),
    )

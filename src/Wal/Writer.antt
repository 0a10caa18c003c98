-- ===== src/Wal/Writer.antt =====
-- The writer of replay/src/wal.rs: what `append` keeps of the directory, across rotations.
use flowlab.Prelude.{
  ℕ, ◌+◌, ◌-◌, ◌≤◌, ◌<◌, false, ◌≡◌, refl, ◌∙◌, ap, sym, none, some, List, [], ◌∷◌, ◌++◌,
  append_assoc, append-nil, length, length-append, length-push, push, All, All-push, All-map, ltb,
  u32_mod, arith, Bool-cases, ◌⊎◌, inl, inr,
}
use flowlab.Wal.{
  Wal, read_file, write_file, create_file, frame, append, rotate, rotated, write_frame,
  write_at_end, write_unless,
}
use flowlab.Wal.Frames.{IsSmall, frames, length-frame, read_record-nil}
use flowlab.Wal.Segments.{
  Segment, bytes, disk, records_of, IsSound, Ascending, written, create_file-disk, read_file-last,
  write_file-last, Ascending-push, records_of-push, frames-push,
}

-- A segment is not longer than the size of a segment, unless it has no second record.
abbrev pub InSize : ℕ → Segment → Type 0
InSize size s = (length (bytes s) ≤ size) ⊎ (length s.records ≤ 1)

-- The log `w` has the closed segments `l`, and the records `rs` in the current one.
pub record Holds (w : Wal) (l : List Segment) (rs : List (List ℕ)) : Type 0 where
  pub on_disk : w.dir ≡ disk (push l (written w.current_index rs))
  pub counted : w.current_bytes ≡ length (frames rs)
  pub below : All (λ (s : Segment). s.index < w.current_index) l
  pub ordered : Ascending l
  pub sound : All IsSound l
  pub small : All IsSmall rs
  pub in_size : All (InSize w.segment_size) l
  pub last_in_size : InSize w.segment_size (written w.current_index rs)

length-bytes : (i : ℕ) (rs : List (List ℕ)) → length (bytes (written i rs)) ≡ length (frames rs)
length-bytes i rs = ap length (append-nil (frames rs))

module _ (w : Wal) (l : List Segment) (rs : List (List ℕ)) (h : Holds w l rs) where
  all_below :
      All (λ (s : Segment). s.index < w.current_index + 1) (push l (written w.current_index rs))
  all_below =
      All-push (λ (s : Segment). s.index < w.current_index + 1) l (written w.current_index rs)
        (All-map (λ (s : Segment). s.index < w.current_index) _ l (λ s b. omega arith) h.below)
        (omega arith)

  rotate-Holds :
      (w2 : Wal) × (rotate w ≡ (none, w2))
      × (w2.segment_size ≡ w.segment_size)
      × Holds w2 (push l (written w.current_index rs)) []
  unfolding rotate frames
  rotate-Holds =
      let l2 = push l (written w.current_index rs) in
      let w2 : Wal = record w {
        dir = disk (push l2 (written (w.current_index + 1) []));
        current_index = w.current_index + 1;
        current_bytes = 0;
      } in
      (
        w2,
        ap (rotated w (w.current_index + 1)) (
            ap (λ d. create_file d (w.current_index + 1)) h.on_disk
            ∙ create_file-disk l2 (w.current_index + 1) all_below),
        refl,
        record {
          on_disk = refl;
          counted = refl;
          below = all_below;
          ordered = Ascending-push l (written w.current_index rs) h.ordered h.below;
          sound =
              All-push IsSound l (written w.current_index rs) h.sound
                record { small = h.small; torn = read_record-nil };
          small = tt;
          in_size =
              All-push (InSize w.segment_size) l (written w.current_index rs) h.in_size
                h.last_in_size;
          last_in_size = inr (omega arith);
        },
      )

  -- A record goes behind the others of the current segment.
  write_frame-Holds :
      (p : List ℕ)
      → IsSmall p
      → ((w.current_bytes + (8 + length p) ≤ w.segment_size) ⊎ (rs ≡ []))
      → (w2 : Wal) × (write_frame p w ≡ (none, w2))
        × (w2.segment_size ≡ w.segment_size)
        × Holds w2 l (push rs p)
  unfolding write_frame
  write_frame-Holds p small room =
      let i = w.current_index in
      let here = written i rs in
      let file : read_file w.dir i ≡ some (bytes here) =
        ap (λ d. read_file d i) h.on_disk ∙ read_file-last l here h.below in
      let grown : bytes here ++ frame p ≡ bytes (written i (push rs p)) =
        ap (λ b. b ++ frame p) (append-nil (frames rs))
        ∙ sym (frames-push rs p)
        ∙ sym (append-nil (frames (push rs p))) in
      let longer : length (frames (push rs p)) ≡ length (frames rs) + (8 + length p) =
        ap length (frames-push rs p)
        ∙ length-append (frames rs) (frame p)
        ∙ ap (λ n. length (frames rs) + n) (length-frame p) in
      let size = length-bytes i (push rs p) in
      let counted = h.counted in
      let w2 : Wal = record w {
        dir = write_file w.dir i (bytes here ++ frame p);
        current_bytes = w.current_bytes + (8 + length p);
      } in
      (
        w2,
        ap (write_at_end p w) file,
        refl,
        record {
          on_disk =
              ap (λ d. write_file d i (bytes here ++ frame p)) h.on_disk
              ∙ write_file-last l i rs [] (push rs p) (bytes here ++ frame p) h.below grown;
          counted = omega (arith, counted, longer);
          below = h.below;
          ordered = h.ordered;
          sound = h.sound;
          small = All-push IsSmall rs p h.small small;
          in_size = h.in_size;
          last_in_size = elim room [
            | inl fits ↦ inl (omega (arith, fits, counted, longer, size))
            | inr first ↦ inr (omega (arith, length-push rs p, ap length first))
          ];
        },
      )

-- What a record appended leaves: the records of the log with one more at their end.
pub record Appended (w : Wal) (l : List Segment) (rs : List (List ℕ)) (p : List ℕ) : Type 0 where
  pub after : Wal
  pub ran : append p w ≡ (none, after)
  pub same_size : after.segment_size ≡ w.segment_size
  pub closed : List Segment
  pub current : List (List ℕ)
  pub holds : Holds after closed current
  pub contents : records_of closed ++ current ≡ push (records_of l ++ rs) p

pub append-Appended :
    (w : Wal) (l : List Segment) (rs : List (List ℕ)) (p : List ℕ)
    → Holds w l rs
    → IsSmall p
    → Appended w l rs p
unfolding append
append-Appended w l rs p h small =
    let word : ltb (u32_mod - 1) (length p) ≡ false = ground (arith, small) in
    elim (Bool-cases (ltb w.segment_size (w.current_bytes + (8 + length p)))) [
      | inl full ↦
          let (v, rotated, size, hv) = rotate-Holds w l rs h in
          let here = written w.current_index rs in
          let (u, wrote, same, hu) = write_frame-Holds v (push l here) [] hv p small (inr refl) in
          record {
            after = u;
            ran = rw (word, full) (ap (write_unless p) rotated ∙ wrote);
            same_size = same ∙ size;
            closed = push l here;
            current = p ∷ [];
            holds = hu;
            contents = ap (λ r. r ++ p ∷ []) (records_of-push l here);
          }
      | inr room ↦
          let (u, wrote, same, hu) = write_frame-Holds w l rs h p small (inl (ground arith)) in
          record {
            after = u;
            ran = rw (word, room) wrote;
            same_size = same;
            closed = l;
            current = push rs p;
            holds = hu;
            contents = sym (append_assoc (records_of l) rs (p ∷ []));
          }
    ]

-- ===== src/Wal/Recover.antt =====
-- The recovery of a torn segment, `recover_segment_tail` of replay/src/wal.rs.
use flowlab.Prelude.{
  ℕ, zero, suc, ◌+◌, ◌-◌, ◌<◌, ◌≡◌, refl, ◌∙◌, ap, sym, none, some, List, [], ◌∷◌, ◌++◌,
  append_assoc, append-nil, length, length-append, take, take-length, take_beyond, take_front, All,
  ltb, leb, if◌then◌else◌, arith, Bool-cases, inl, inr,
}
use flowlab.Wal.{read_record, frame, recover_from, recover_segment_tail}
use flowlab.Wal.Frames.{
  IsSmall, frames, length-frame, read_record-frame, read_record-nil, read_record-take,
}

-- The loop goes over whole records, and stops before what is none.
recover_from-frames :
    (fuel offset : ℕ) (ps : List (List ℕ)) (tail : List ℕ)
    → All IsSmall ps
    → read_record tail ≡ none
    → length (frames ps ++ tail) < fuel
    → recover_from fuel (frames ps ++ tail) offset ≡ some (offset + length (frames ps))
unfolding recover_from frames
recover_from-frames zero offset ps tail small dead room = absurd (omega arith)
recover_from-frames (suc fuel) offset [] tail small dead room =
    rw (recover_from, dead) (ap some (omega arith))
recover_from-frames (suc fuel) offset (p ∷ ps) tail (s, ss) dead room =
    let size = length-append (frame p ++ frames ps) tail in
    let inner = length-append (frame p) (frames ps) in
    let rest = length-append (frames ps) tail in
    let whole = length-frame p in
    let total : offset + (8 + length p) + length (frames ps)
        ≡ offset + length (frame p ++ frames ps) =
      omega arith in
    ap (λ bs. recover_from (suc fuel) bs offset) (append_assoc (frame p) (frames ps) tail)
    ∙ rw (recover_from, read_record-frame p (frames ps ++ tail) s)
        (recover_from-frames fuel (offset + (8 + length p)) ps tail ss dead (omega arith))
    ∙ ap some total

pub recover_segment_tail-frames :
    (ps : List (List ℕ)) (tail : List ℕ)
    → All IsSmall ps
    → read_record tail ≡ none
    → recover_segment_tail (frames ps ++ tail) ≡ some (length (frames ps), frames ps)
unfolding recover_segment_tail
recover_segment_tail-frames ps tail small dead =
    let file = frames ps ++ tail in
    let size = length-append (frames ps) tail in
    let offset : recover_from (suc (length file)) file 0 ≡ some (length (frames ps)) =
      recover_from-frames (suc (length file)) 0 ps tail small dead (omega arith)
      ∙ ap some (omega arith) in
    elim (Bool-cases (ltb (length (frames ps)) (length file))) [
      | inl longer ↦
          rw (recover_segment_tail, offset, longer)
            (ap (λ l. some (length (frames ps), l)) (take-length (frames ps) tail))
      | inr whole ↦
          rw (recover_segment_tail, offset, whole)
            (ap (λ l. some (length (frames ps), l))
              (ap (λ l. frames ps ++ l) (nil tail (ground (arith, size))) ∙ append-nil (frames ps)))
    ]
  where
    nil : (xs : List ℕ) → length xs ≡ 0 → xs ≡ []
    nil [] e = refl
    nil (x ∷ xs) e = absurd (omega (arith, e))

-- The records that lie within the first `k` bytes.
abbrev pub whole_records : ℕ → List (List ℕ) → List (List ℕ)
whole_records k [] = []
whole_records k (p ∷ ps) =
    if leb (8 + length p) k then p ∷ whole_records (k - (8 + length p)) ps else []

-- The first `k` bytes are the records within them and a part of no record.
pub record Cut (k : ℕ) (ps : List (List ℕ)) : Type 0 where
  pub tail : List ℕ
  pub split : take k (frames ps) ≡ frames (whole_records k ps) ++ tail
  pub dead : read_record tail ≡ none
  pub small : All IsSmall (whole_records k ps)

take_nil : (k : ℕ) → take {A = ℕ} k [] ≡ []
take_nil zero = refl
take_nil (suc k) = refl

pub cut : (k : ℕ) (ps : List (List ℕ)) → All IsSmall ps → Cut k ps
unfolding frames
cut k [] small = record { tail = []; split = take_nil k; dead = read_record-nil; small = tt }
cut k (p ∷ ps) (s, ss) = elim (Bool-cases (leb (8 + length p) k)) [
  | inl inside ↦
      let j = k - (8 + length p) in
      let c = cut j ps ss in
      let there : k ≡ length (frame p) + j = ground (arith, length-frame p) in
      record {
        tail = c.tail;
        split = rw inside (
            ap (λ n. take n (frame p ++ frames ps)) there
            ∙ take_beyond (frame p) (frames ps) j
            ∙ ap (λ l. frame p ++ l) c.split
            ∙ sym (append_assoc (frame p) (frames (whole_records j ps)) c.tail));
        dead = c.dead;
        small = rw inside (s, c.small);
      }
  | inr outside ↦ record {
    tail = take k (frame p);
    split = rw outside (take_front k (frame p) (frames ps) (ground (arith, length-frame p)));
    dead = read_record-take p k s (ground arith);
    small = rw outside tt;
  }
]

-- A segment of which only the first `k` bytes were written is recovered to the records that lie
-- within them, whole and in order: the offset is behind the last of them, and what is left of the
-- next record is cut off the file.
pub recover_segment_tail-take :
    (ps : List (List ℕ)) (k : ℕ)
    → All IsSmall ps
    → recover_segment_tail (take k (frames ps))
      ≡ some (length (frames (whole_records k ps)), frames (whole_records k ps))
recover_segment_tail-take ps k small =
    let c = cut k ps small in
    let qs = whole_records k ps in
    ap recover_segment_tail c.split ∙ recover_segment_tail-frames qs c.tail c.small c.dead

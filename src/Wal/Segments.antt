-- ===== src/Wal/Segments.antt =====
-- The directory of replay/src/wal.rs as the records that its segments hold.
use flowlab.Prelude.{
  ℕ, zero, suc, ◌<◌, false, ◌≡◌, refl, ◌∙◌, ap, sym, subst, none, some, List, [], ◌∷◌, ◌++◌,
  append_assoc, append-nil, length, push, All-push, drop, get_or, map, All, All-drop, ◌==◌, ==_self,
  arith, inr,
}
use flowlab.Wal.{Dir, read_file, write_file, create_file, last_segment, read_record, frame}
use flowlab.Wal.Frames.{IsSmall, frames}

-- A segment: its records, and behind them what is none.
pub record Segment : Type 0 where
  pub index : ℕ
  pub records : List (List ℕ)
  pub tail : List ℕ

abbrev pub bytes : Segment → List ℕ
bytes s = frames s.records ++ s.tail

abbrev pub disk : List Segment → Dir
disk [] = []
disk (s ∷ l) = (s.index, bytes s) ∷ disk l

abbrev pub records_of : List Segment → List (List ℕ)
records_of [] = []
records_of (s ∷ l) = s.records ++ records_of l

pub record IsSound (s : Segment) : Type 0 where
  pub small : All IsSmall s.records
  pub torn : read_record s.tail ≡ none

-- ascending indices
abbrev pub Ascending : List Segment → Type 0
Ascending [] = Unit
Ascending (s ∷ l) = All (λ (t : Segment). s.index < t.index) l × Ascending l

-- The segments that the writer makes have no tail.
abbrev pub written : ℕ → List (List ℕ) → Segment
written i rs = record { index = i; records = rs; tail = [] }

-- the segment at a place
pub get_or-index :
    (l : List Segment) (k : ℕ) (s : Segment) (rest : List Segment)
    → drop k l ≡ s ∷ rest
    → get_or (map (λ (f : ℕ × List ℕ). f.0) (disk l)) k 0 ≡ s.index
get_or-index [] zero s rest e = absurd cc
get_or-index [] (suc k) s rest e = absurd cc
get_or-index (t ∷ l) zero s rest e = let same : t ≡ s = cc in ap (λ x. x.index) same
get_or-index (t ∷ l) (suc k) s rest e = get_or-index l k s rest e

pub read_file-at :
    (l : List Segment) (k : ℕ) (s : Segment) (rest : List Segment)
    → Ascending l
    → drop k l ≡ s ∷ rest
    → read_file (disk l) s.index ≡ some (bytes s)
read_file-at [] zero s rest up e = absurd cc
read_file-at [] (suc k) s rest up e = absurd cc
read_file-at (t ∷ l) zero s rest up e =
    let same : t ≡ s = cc in
    rw (ap (λ x. x.index == s.index) same ∙ ==_self s.index) (ap (λ x. some (bytes x)) same)
read_file-at (t ∷ l) (suc k) s rest (below, up) e =
    let later : All (λ (x : Segment). t.index < x.index) (s ∷ rest) =
      subst (All (λ (x : Segment). t.index < x.index)) e (All-drop _ k l below) in
    let other : (t.index == s.index) ≡ false = ground (arith, later.0) in
    rw other (read_file-at l k s rest up e)

pub length-disk : (l : List Segment) → length (map (λ (f : ℕ × List ℕ). f.0) (disk l)) ≡ length l
length-disk [] = refl
length-disk (s ∷ l) = ap suc (length-disk l)

-- The last segment.
read_file_absent :
    (l : List Segment) (i : ℕ) → All (λ (s : Segment). s.index < i) l → read_file (disk l) i ≡ none
read_file_absent [] i below = refl
read_file_absent (s ∷ l) i (h, hs) =
    let other : (s.index == i) ≡ false = ground (arith, h) in rw other (read_file_absent l i hs)

pub disk-push :
    (l : List Segment) (s : Segment) → disk (push l s) ≡ push (disk l) (s.index, bytes s)
disk-push [] s = refl
disk-push (t ∷ l) s = ap (λ d. (t.index, bytes t) ∷ d) (disk-push l s)

pub create_file-disk :
    (l : List Segment) (i : ℕ)
    → All (λ (s : Segment). s.index < i) l
    → create_file (disk l) i ≡ inr (disk (push l (written i [])))
unfolding frames
create_file-disk l i below =
    rw (create_file, read_file_absent l i below) (ap inr (sym (disk-push l (written i []))))

pub read_file-last :
    (l : List Segment) (s : Segment)
    → All (λ (t : Segment). t.index < s.index) l
    → read_file (disk (push l s)) s.index ≡ some (bytes s)
read_file-last [] s below = rw (==_self s.index) refl
read_file-last (t ∷ l) s (h, hs) =
    let other : (t.index == s.index) ≡ false = ground (arith, h) in rw other (read_file-last l s hs)

pub write_file-last :
    (l : List Segment) (i : ℕ) (rs : List (List ℕ)) (t : List ℕ) (qs : List (List ℕ)) (bs : List ℕ)
    → All (λ (s : Segment). s.index < i) l
    → bs ≡ bytes (written i qs)
    → write_file (disk (push l (record { index = i; records = rs; tail = t }))) i bs
      ≡ disk (push l (written i qs))
write_file-last [] i rs t qs bs below e = rw (==_self i) (ap (λ b. (i, b) ∷ []) e)
write_file-last (s ∷ l) i rs t qs bs (h, hs) e =
    let other : (s.index == i) ≡ false = ground (arith, h) in
    rw other (ap (λ d. (s.index, bytes s) ∷ d) (write_file-last l i rs t qs bs hs e))

pub last_segment-push :
    (l : List Segment) (s : Segment) → last_segment (disk (push l s)) ≡ some (s.index, bytes s)
last_segment-push [] s = refl
last_segment-push (t ∷ []) s = refl
last_segment-push (t ∷ u ∷ l) s = last_segment-push (u ∷ l) s

pub Ascending-push :
    (l : List Segment) (s : Segment)
    → Ascending l
    → All (λ (t : Segment). t.index < s.index) l
    → Ascending (push l s)
Ascending-push [] s up below = (tt, tt)
Ascending-push (t ∷ l) s (h, up) (b, below) =
    (All-push (λ (u : Segment). t.index < u.index) l s h b, Ascending-push l s up below)

pub records_of-push :
    (l : List Segment) (s : Segment) → records_of (push l s) ≡ records_of l ++ s.records
records_of-push [] s = append-nil s.records
records_of-push (t ∷ l) s =
    ap (λ r. t.records ++ r) (records_of-push l s)
    ∙ sym (append_assoc t.records (records_of l) s.records)

pub frames-push : (rs : List (List ℕ)) (p : List ℕ) → frames (push rs p) ≡ frames rs ++ frame p
unfolding frames
frames-push [] p = append-nil (frame p)
frames-push (r ∷ rs) p =
    ap (λ b. frame r ++ b) (frames-push rs p) ∙ sym (append_assoc (frame r) (frames rs) (frame p))

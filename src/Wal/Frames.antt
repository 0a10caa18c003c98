-- ===== src/Wal/Frames.antt =====
-- Records in a segment of the log of replay/src/wal.rs: a whole one is read, a cut-off one is not.
use flowlab.Prelude.{
  ℕ, ◌+◌, ◌-◌, ◌<◌, true, false, ◌≡◌, refl, ◌∙◌, ap, ap₂, sym, none, some, List, [], ◌∷◌, ◌++◌,
  append_assoc, length, length-append, length-take, take, take-length, drop-length, take_beyond,
  ltb, ==_self, to_le_bytes, from_le_bytes, from_le_bytes-to_le_bytes, u32_mod, arith, Bool-cases,
  inl, inr,
}
use flowlab.Wal.{read_exact, check_payload, after_header, read_record, frame}
use flowlab.Wal.Crc.{crc32}

abbrev pub IsSmall : List ℕ → Type 0
IsSmall p = length p < u32_mod

unfoldable pub frames : List (List ℕ) → List ℕ
frames [] = []
frames (p ∷ ps) = frame p ++ frames ps

crc32-lt : (p : List ℕ) → crc32 p < u32_mod
unfolding crc32
crc32-lt p = omega arith

pub length-frame : (p : List ℕ) → length (frame p) ≡ 8 + length p
unfolding to_le_bytes
length-frame p = omega arith

pub read_exact_short : (n : ℕ) (bs : List ℕ) → length bs < n → read_exact n bs ≡ none
read_exact_short n bs h = let short : ltb (length bs) n ≡ true = ground (arith, h) in rw short refl

pub read_exact-append : (xs ys : List ℕ) → read_exact (length xs) (xs ++ ys) ≡ some (xs, ys)
read_exact-append xs ys =
    let whole : ltb (length (xs ++ ys)) (length xs) ≡ false = ground (arith, length-append xs ys) in
    rw (whole, take-length xs ys, drop-length xs ys) refl

abbrev header : List ℕ → List ℕ
header p = to_le_bytes 4 (length p) ++ to_le_bytes 4 (crc32 p)

frame-header : (p : List ℕ) → frame p ≡ header p ++ p
frame-header p = sym (append_assoc (to_le_bytes 4 (length p)) (to_le_bytes 4 (crc32 p)) p)

-- A header that is whole.
after_header-frame :
    (p bs : List ℕ)
    → IsSmall p
    → read_record (to_le_bytes 4 (length p) ++ (to_le_bytes 4 (crc32 p) ++ bs))
      ≡ check_payload (crc32 p) (read_exact (length p) bs)
unfolding read_record to_le_bytes from_le_bytes
after_header-frame p bs small =
    ap after_header (read_exact-append (header p) bs)
    ∙ ap₂ (λ crc n. check_payload crc (read_exact n bs))
        (from_le_bytes-to_le_bytes 4 (crc32 p) (crc32-lt p))
        (from_le_bytes-to_le_bytes 4 (length p) small)

pub read_record-frame :
    (p rest : List ℕ) → IsSmall p → read_record (frame p ++ rest) ≡ some (p, rest)
read_record-frame p rest small =
    ap read_record (
      append_assoc (to_le_bytes 4 (length p)) (to_le_bytes 4 (crc32 p) ++ p) rest
      ∙ ap (λ l. to_le_bytes 4 (length p) ++ l) (append_assoc (to_le_bytes 4 (crc32 p)) p rest))
    ∙ after_header-frame p (p ++ rest) small
    ∙ ap (check_payload (crc32 p)) (read_exact-append p rest)
    ∙ rw (==_self (crc32 p)) refl

pub read_record-nil : read_record [] ≡ none
unfolding read_record
read_record-nil = refl

-- A record that is cut off anywhere is not read: the file ends in its header or in its payload.
pub read_record-take :
    (p : List ℕ) (k : ℕ) → IsSmall p → k < 8 + length p → read_record (take k (frame p)) ≡ none
read_record-take p k small cut = elim (Bool-cases (ltb k 8)) [
  | inl short ↦
      unfold read_record in
      ap after_header (
        read_exact_short 8 (take k (frame p))
          (ground (arith, length-take k (frame p), length-frame p)))
  | inr long ↦
      let j = k - 8 in
      let there : k ≡ length (header p) + j = unfold to_le_bytes in ground arith in
      ap₂ (λ n b. read_record (take n b)) there (frame-header p)
      ∙ ap read_record (take_beyond (header p) p j)
      ∙ ap read_record
          (append_assoc (to_le_bytes 4 (length p)) (to_le_bytes 4 (crc32 p)) (take j p))
      ∙ after_header-frame p (take j p) small
      ∙ ap (check_payload (crc32 p))
          (read_exact_short (length p) (take j p) (ground (arith, length-take j p)))
]

-- ===== src/Snapshot/Frame.antt =====
-- A snapshot that is written is read back, and no part of one is taken for a whole.
use flowlab.Prelude.{
  ℕ, suc, ◌+◌, ◌-◌, ◌≤◌, ◌<◌, min, true, false, ◌≡◌, refl, ◌∙◌, ap, ap₂, List, [], ◌∷◌, ◌++◌, ltb,
  if◌then◌else◌, length, take, take_beyond, Bool-cases, zero, length-append, length-take,
  to_le_bytes, from_le_bytes, from_le_bytes-to_le_bytes, u32_mod, u64_mod, ◌⊎◌, inl, inr, arith,
  append_assoc,
}
use flowlab.Snapshot.{Snapshot, SnapshotError, to_bytes, from_bytes, magic_bytes, header_len}

-- the header as it is written
abbrev header : ℕ → ℕ → ℕ → List ℕ
header seq hash len =
    magic_bytes
    ++ (to_le_bytes 4 1 ++ (to_le_bytes 8 seq ++ (to_le_bytes 8 hash ++ to_le_bytes 4 len)))

-- the words of the fields
pub record Fits (s : Snapshot) : Type 0 where
  pub numbered : s.seq < u64_mod
  pub hashed : s.state_hash < u64_mod

to_bytes-header :
    (s : Snapshot)
    → to_bytes s ≡ header s.seq s.state_hash (min (length s.book_data) (u32_mod - 1)) ++ s.book_data
unfolding to_bytes to_le_bytes
to_bytes-header s = refl

-- Behind a whole header the payload decides.
abbrev payload_result : ℕ → ℕ → ℕ → List ℕ → SnapshotError ⊎ Snapshot
payload_result seq hash len rest =
    if ltb (length rest) len
    then inl (SnapshotError.bad_length len (length rest))
    else inr (record { seq = seq; state_hash = hash; book_data = take len rest })

from_bytes-header :
    (seq hash len : ℕ) (rest : List ℕ)
    → seq < u64_mod
    → hash < u64_mod
    → len < u32_mod
    → from_bytes (header seq hash len ++ rest) ≡ payload_result seq hash len rest
unfolding from_bytes to_le_bytes from_le_bytes
from_bytes-header seq hash len rest hs hh hl =
    let whole : ltb (length (header seq hash len ++ rest)) header_len ≡ false = ground arith in
    rw
      (
        whole,
        from_le_bytes-to_le_bytes 8 seq hs,
        from_le_bytes-to_le_bytes 8 hash hh,
        from_le_bytes-to_le_bytes 4 len hl,
      )
      refl

-- The slice of as much as was declared.
take_declared : (m n : ℕ) (xs ys : List ℕ) → m ≡ min (length xs) n → take m (xs ++ ys) ≡ take n xs
take_declared zero zero xs ys e = refl
take_declared zero (suc n) [] ys e = refl
take_declared zero (suc n) (x ∷ xs) ys e = absurd (omega (arith, e))
take_declared (suc m) zero xs ys e = absurd (omega (arith, e))
take_declared (suc m) (suc n) [] ys e = absurd (omega (arith, e))
take_declared (suc m) (suc n) (x ∷ xs) ys e =
    ap (λ l. x ∷ l) (take_declared m n xs ys (omega (arith, e)))

-- A snapshot whose words have 64 bits, written and followed by any bytes, is read back, with the
-- first 2^32 - 1 bytes of its book data: a shorter book comes back whole, and a longer one is cut
-- there and not refused.
pub from_bytes-to_bytes :
    (s : Snapshot) (junk : List ℕ)
    → Fits s
    → from_bytes (to_bytes s ++ junk)
      ≡ inr (record s { book_data = take (u32_mod - 1) s.book_data })
from_bytes-to_bytes s junk fits =
    let len = min (length s.book_data) (u32_mod - 1) in
    let room : ltb (length (s.book_data ++ junk)) len ≡ false =
      ground (arith, length-append s.book_data junk) in
    ap (λ b. from_bytes (b ++ junk)) (to_bytes-header s)
    ∙ ap from_bytes (append_assoc (header s.seq s.state_hash len) s.book_data junk)
    ∙ from_bytes-header s.seq s.state_hash len (s.book_data ++ junk) fits.numbered fits.hashed
        (omega arith)
    ∙ rw room (
        ap (λ d. inr (record s { book_data = d }))
          (take_declared len (u32_mod - 1) s.book_data junk refl))

-- What a torn write left.
abbrev torn_error : ℕ → Snapshot → SnapshotError
torn_error k s =
    if ltb k header_len
    then SnapshotError.truncated k
    else SnapshotError.bad_length (length s.book_data) (k - header_len)

-- Every cut-off part of a written snapshot is refused: the first `k` bytes, fewer than there are, as
-- too short where the header is not whole, and otherwise for the length that the header declares.
-- The book has at most 2^32 - 1 bytes.
pub from_bytes-take :
    (s : Snapshot) (k : ℕ)
    → Fits s
    → length s.book_data < u32_mod
    → k < length (to_bytes s)
    → from_bytes (take k (to_bytes s)) ≡ inl (torn_error k s)
from_bytes-take s k fits small cut = elim (Bool-cases (ltb k header_len)) [
  | inl short ↦ rw short (short_case (ground arith))
  | inr long ↦ rw long (long_case (ground arith))
]
  where
    len : ℕ
    len = min (length s.book_data) (u32_mod - 1)

    size : length (to_bytes s) ≡ header_len + length s.book_data
    size = unfold to_bytes to_le_bytes in omega arith

    short_case : k < header_len → from_bytes (take k (to_bytes s)) ≡ inl (SnapshotError.truncated k)
    short_case h =
        let taken : length (take k (to_bytes s)) ≡ k =
          omega (arith, length-take k (to_bytes s), size) in
        let torn : ltb (length (take k (to_bytes s))) header_len ≡ true = ground (arith, taken) in
        unfold from_bytes in rw torn (ap (λ n. inl (SnapshotError.truncated n)) taken)

    long_case :
        header_len ≤ k
        → from_bytes (take k (to_bytes s))
          ≡ inl (SnapshotError.bad_length (length s.book_data) (k - header_len))
    long_case h =
        let j = k - header_len in
        let front = header s.seq s.state_hash len in
        let there : k ≡ length front + j = unfold to_le_bytes in omega arith in
        let declared : len ≡ length s.book_data = omega arith in
        let taken : length (take j s.book_data) ≡ j =
          omega (arith, length-take j s.book_data, size) in
        let missing : ltb (length (take j s.book_data)) len ≡ true = ground (arith, taken, size) in
        ap₂ (λ n b. from_bytes (take n b)) there (to_bytes-header s)
        ∙ ap from_bytes (take_beyond front s.book_data j)
        ∙ from_bytes-header s.seq s.state_hash len (take j s.book_data) fits.numbered fits.hashed
            (omega arith)
        ∙ rw missing (ap₂ (λ n a. inl (SnapshotError.bad_length n a)) declared taken)

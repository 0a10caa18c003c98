-- ===== src/Snapshot.antt =====
-- The snapshot frame of replay/src/snapshot.rs, a header and the bytes of a book. Writing it to a
-- file by way of a temporary one and a rename is I/O and is not here.
pub mod Frame
mod Tests
use flowlab.Prelude.{
  slice, ℕ, ◌-◌, ◌^◌, min, List, [], ◌∷◌, ◌++◌, ltb, leb, ◌==◌, not, if◌then◌else◌, length, take,
  drop, to_le_bytes, from_le_bytes, u32_mod, ◌⊎◌, inl, inr, Bool, true, false, ◌&&◌,
}

pub record Snapshot : Type 0 where
  pub seq : ℕ
  pub state_hash : ℕ
  pub book_data : List ℕ

pub data SnapshotError : Type 0 where
  truncated : ℕ → SnapshotError
  bad_magic : List ℕ → SnapshotError
  bad_version : ℕ → SnapshotError
  bad_length : (declared actual : ℕ) → SnapshotError

abbrev pub magic_bytes : List ℕ
magic_bytes = b'F' ∷ b'L' ∷ b'S' ∷ b'N' ∷ []

abbrev pub version_number : ℕ
version_number = 1

abbrev pub header_len : ℕ
header_len = 28

-- `==` of byte slices
abbrev pub same_bytes : List ℕ → List ℕ → Bool
same_bytes [] [] = true
same_bytes [] (y ∷ ys) = false
same_bytes (x ∷ xs) [] = false
same_bytes (x ∷ xs) (y ∷ ys) = x == y && same_bytes xs ys

unfoldable pub to_bytes : Snapshot → List ℕ
to_bytes s =
    let len = min (length s.book_data) (u32_mod - 1) in
    magic_bytes
    ++ (to_le_bytes 4 version_number
        ++ (to_le_bytes 8 s.seq
            ++ (to_le_bytes 8 s.state_hash ++ (to_le_bytes 4 len ++ s.book_data))))

unfoldable pub from_bytes : List ℕ → SnapshotError ⊎ Snapshot
from_bytes buf =
    let magic = slice buf 0 4 in
    let version = from_le_bytes (slice buf 4 8) in
    let seq = from_le_bytes (slice buf 8 16) in
    let state_hash = from_le_bytes (slice buf 16 24) in
    let declared = from_le_bytes (slice buf 24 28) in
    let payload = drop header_len buf in
    if ltb (length buf) header_len
    then inl (SnapshotError.truncated (length buf))
    else if not (same_bytes magic magic_bytes)
    then inl (SnapshotError.bad_magic magic)
    else if not (version == version_number)
    then inl (SnapshotError.bad_version version)
    else if ltb (length payload) declared
    then inl (SnapshotError.bad_length declared (length payload))
    else inr (record { seq = seq; state_hash = state_hash; book_data = take declared payload })

-- ===== src/Wal.antt =====
-- The segmented write-ahead log of replay/src/wal.rs. The directory is the list of its segments, by
-- index and in ascending order, each with the bytes that its file holds once the buffer of the
-- writer is flushed. Of the errors of the file system there are those that a file which exists or is
-- missing gives; the log's records have at most 2^32 - 1 bytes.
pub mod Crc
pub mod Frames
pub mod Reader
pub mod Segments
pub mod Reads
pub mod Writer
pub mod Session
pub mod Reopen
pub mod Recover
mod Tests
use flowlab.Prelude.{
  ℕ, zero, suc, ◌+◌, ◌-◌, List, [], ◌∷◌, ◌++◌, Option, none, some, ltb, ◌==◌, if◌then◌else◌, length,
  take, drop, push, to_le_bytes, from_le_bytes, u32_mod, ◌⊎◌, inl, inr,
}
use Crc.{crc32}

-- the segments of a directory: index and bytes
abbrev pub Dir : Type 0
Dir = List (ℕ × List ℕ)

pub data WalError : Type 0 where
  already_exists not_found : (segment : ℕ) → WalError
  payload_too_large : ℕ → WalError

-- `file.read_exact` of `n` bytes: what was read and what is left, or the end of the file
abbrev pub read_exact : ℕ → List ℕ → Option (List ℕ × List ℕ)
read_exact n bs = if ltb (length bs) n then none else some (take n bs, drop n bs)

abbrev pub check_payload : ℕ → Option (List ℕ × List ℕ) → Option (List ℕ × List ℕ)
check_payload crc none = none
check_payload crc (some (payload, rest)) =
    if crc32 payload == crc then some (payload, rest) else none

abbrev pub after_header : Option (List ℕ × List ℕ) → Option (List ℕ × List ℕ)
after_header none = none
after_header (some (hdr, rest)) =
    check_payload (from_le_bytes (drop 4 hdr)) (read_exact (from_le_bytes (take 4 hdr)) rest)

-- The next record of a file and what is left behind it: `none` where a header or a payload is cut
-- off, or the checksum is another.
unfoldable pub read_record : List ℕ → Option (List ℕ × List ℕ)
read_record bs = after_header (read_exact 8 bs)

-- The loop of `recover_segment_tail`, with fuel: the offset behind the last whole record.
unfoldable pub recover_from : ℕ → List ℕ → ℕ → Option ℕ
recover_from zero bs offset = none
recover_from (suc fuel) bs offset = elim (read_record bs) [
  | none ↦ some offset
  | some (payload, rest) ↦ recover_from fuel rest (offset + (8 + length payload))
]

-- Every record takes 8 bytes at least. The offset, and the file cut there where it is longer.
unfoldable pub recover_segment_tail : List ℕ → Option (ℕ × List ℕ)
recover_segment_tail file = elim (recover_from (suc (length file)) file 0) [
  | none ↦ none
  | some offset ↦ some (offset, if ltb offset (length file) then take offset file else file)
]

-- the file of a segment
abbrev pub read_file : Dir → ℕ → Option (List ℕ)
read_file [] idx = none
read_file ((i, bs) ∷ d) idx = if i == idx then some bs else read_file d idx

abbrev pub write_file : Dir → ℕ → List ℕ → Dir
write_file [] idx bs = []
write_file ((i, b) ∷ d) idx bs = if i == idx then (i, bs) ∷ d else (i, b) ∷ write_file d idx bs

-- `create_new`, of an index above those that there are
abbrev pub create_file : Dir → ℕ → WalError ⊎ Dir
create_file d idx = elim (read_file d idx) [
  | none ↦ inr (push d (idx, []))
  | some bs ↦ inl (WalError.already_exists idx)
]

abbrev pub last_segment : Dir → Option (ℕ × List ℕ)
last_segment [] = none
last_segment (s ∷ []) = some s
last_segment (s ∷ t ∷ d) = last_segment (t ∷ d)

pub record Wal : Type 0 where
  pub dir : Dir
  pub segment_size : ℕ
  pub current_index : ℕ
  pub current_bytes : ℕ

-- the log that goes on with a segment recovered
abbrev pub resume : Dir → ℕ → ℕ → Option (ℕ × List ℕ) → Option Wal
resume dir segment_size idx none = none
resume dir segment_size idx (some (bytes, file)) = some (record {
  dir = write_file dir idx file;
  segment_size = segment_size;
  current_index = idx;
  current_bytes = bytes;
})

-- `none` would be a recovery that has not ended.
unfoldable pub open_or_create : Dir → ℕ → Option Wal
open_or_create dir segment_size = elim (last_segment dir) [
  | none ↦ some (record {
    dir = push dir (0, []);
    segment_size = segment_size;
    current_index = 0;
    current_bytes = 0;
  })
  | some (idx, file) ↦ resume dir segment_size idx (recover_segment_tail file)
]

abbrev pub rotated : Wal → ℕ → WalError ⊎ Dir → Option WalError × Wal
rotated w idx (inl e) = (some e, record w { current_index = idx })
rotated w idx (inr dir) = (none, record w { dir = dir; current_index = idx; current_bytes = 0 })

-- The index is counted up also where the file cannot be created.
unfoldable pub rotate : Wal → Option WalError × Wal
rotate w = rotated w (w.current_index + 1) (create_file w.dir (w.current_index + 1))

abbrev pub frame : List ℕ → List ℕ
frame payload = to_le_bytes 4 (length payload) ++ (to_le_bytes 4 (crc32 payload) ++ payload)

abbrev pub write_at_end : List ℕ → Wal → Option (List ℕ) → Option WalError × Wal
write_at_end payload w none = (some (WalError.not_found w.current_index), w)
write_at_end payload w (some file) = (
  none,
  record w {
    dir = write_file w.dir w.current_index (file ++ frame payload);
    current_bytes = w.current_bytes + (8 + length payload);
  },
)

-- the file of the current segment, written at its end
unfoldable pub write_frame : List ℕ → Wal → Option WalError × Wal
write_frame payload w = write_at_end payload w (read_file w.dir w.current_index)

abbrev pub write_unless : List ℕ → Option WalError × Wal → Option WalError × Wal
write_unless payload (some e, w) = (some e, w)
write_unless payload (none, w) = write_frame payload w

unfoldable pub append : List ℕ → Wal → Option WalError × Wal
append payload w =
    if ltb (u32_mod - 1) (length payload)
    then (some (WalError.payload_too_large (length payload)), w)
    else if ltb w.segment_size (w.current_bytes + (8 + length payload))
    then write_unless payload (rotate w)
    else write_frame payload w

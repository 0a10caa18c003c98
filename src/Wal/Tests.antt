-- ===== src/Wal/Tests.antt =====
-- The log on concrete records.
use flowlab.Prelude.{
  ℕ, ◌≡◌, refl, some, none, List, [], ◌∷◌, length, take, All, arith, inl, inr, to_le_bytes,
}
use flowlab.Wal.{Wal, open_or_create, read_record}
use flowlab.Wal.Frames.{frames}
use flowlab.Wal.Segments.{Segment, disk, records_of, IsSound}
use flowlab.Wal.Reader.{open_reader}
use flowlab.Wal.Reads.{Reads, open_reader-Reads}
use flowlab.Wal.Recover.{whole_records}
use flowlab.Wal.Writer.{InSize, Holds}
use flowlab.Wal.Session.{append_all, open_reader-append_all, append_all-InSize}
use flowlab.Wal.Reopen.{tear, open_or_create-tear}
use flowlab.Wal.Crc.{crc32, crc_step, table_entry, crc_shifts, crc_shift}

-- the known vector of the source's tests
crc32_vector :
    crc32 (b'1' ∷ b'2' ∷ b'3' ∷ b'4' ∷ b'5' ∷ b'6' ∷ b'7' ∷ b'8' ∷ b'9' ∷ []) ≡ 0xCBF43926
unfolding crc32 crc_step table_entry crc_shifts crc_shift
crc32_vector = refl

abbrev payloads : List (List ℕ)
payloads = (1 ∷ 2 ∷ 3 ∷ []) ∷ (4 ∷ 5 ∷ []) ∷ [] ∷ (6 ∷ 7 ∷ 8 ∷ 9 ∷ []) ∷ []

-- a segment size that two of the records fill
open_reader-append_all_example :
    (w : Wal) × (v : Wal) × (open_or_create [] 24 ≡ some w)
    × (append_all payloads w ≡ (none, v))
    × Reads (open_reader v.dir) payloads
open_reader-append_all_example = open_reader-append_all 24 payloads (omega arith)

append_all-InSize_example :
    (w : Wal) × (v : Wal) × (l : List Segment) × (open_or_create [] 24 ≡ some w)
    × (append_all payloads w ≡ (none, v))
    × (v.dir ≡ disk l)
    × (records_of l ≡ payloads)
    × All (InSize 24) l
append_all-InSize_example = append_all-InSize 24 payloads (omega arith)

-- The 25 bytes end in the header of the third record.
two_are_whole : whole_records 25 payloads ≡ take 2 payloads
two_are_whole = refl

-- a segment with a record cut off behind two, and one that goes on after it
abbrev torn_log : List Segment
torn_log =
    record { index = 0; records = take 2 payloads; tail = 4 ∷ 0 ∷ 0 ∷ [] }
    ∷ record { index = 3; records = (7 ∷ []) ∷ []; tail = [] }
    ∷ []

torn_log-IsSound : All IsSound torn_log
torn_log-IsSound = (
  record { small = omega arith; torn = unfold read_record in refl },
  (record { small = omega arith; torn = unfold read_record in refl }, tt),
)

open_reader-Reads_example :
    Reads (open_reader (disk torn_log)) ((1 ∷ 2 ∷ 3 ∷ []) ∷ (4 ∷ 5 ∷ []) ∷ (7 ∷ []) ∷ [])
open_reader-Reads_example = open_reader-Reads torn_log torn_log-IsSound (omega arith)

-- a log in its second segment
abbrev second_segment : Wal
second_segment = record {
  dir = disk (
      record { index = 0; records = (1 ∷ 2 ∷ []) ∷ []; tail = [] }
      ∷ record { index = 1; records = payloads; tail = [] }
      ∷ []);
  segment_size = 100;
  current_index = 1;
  current_bytes = length (frames payloads);
}

second_segment-Holds :
    Holds second_segment
      (record { index = 0; records = (1 ∷ 2 ∷ []) ∷ []; tail = [] } ∷ [])
      payloads
second_segment-Holds = record {
  on_disk = refl;
  counted = refl;
  below = omega arith;
  ordered = omega arith;
  sound = (record { small = omega arith; torn = unfold read_record in refl }, tt);
  small = omega arith;
  in_size = (inr (omega arith), tt);
  last_in_size = inl (unfold frames to_le_bytes in omega arith);
}

open_or_create-tear_example :
    (v : Wal) × (u : Wal) × (open_or_create (tear 25 second_segment.dir) 100 ≡ some v)
    × (append_all ((3 ∷ []) ∷ []) v ≡ (none, u))
    × Reads (open_reader u.dir) ((1 ∷ 2 ∷ []) ∷ (1 ∷ 2 ∷ 3 ∷ []) ∷ (4 ∷ 5 ∷ []) ∷ (3 ∷ []) ∷ [])
open_or_create-tear_example =
    open_or_create-tear second_segment
      (record { index = 0; records = (1 ∷ 2 ∷ []) ∷ []; tail = [] } ∷ []) payloads 25
      ((3 ∷ []) ∷ []) second_segment-Holds (omega arith)

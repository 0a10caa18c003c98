-- ===== src/Ring.antt =====
-- The single-producer single-consumer byte ring of replay/src/ring_reader.rs, which a file maps into
-- the memory of both sides. The mapping is its regions: the header, the two cursors and the payload.
pub mod Copy
pub mod Window
pub mod Steps
pub mod Sound
pub mod Fifo
pub mod Calls
mod Tests
use Prim.Native.Nat.{bit_and}
use flowlab.Prelude.{
  sub_u64, ℕ, zero, suc, ◌+◌, ◌-◌, ◌%◌, ◌^◌, Bool, true, false, not, ◌&&◌, ◌||◌, List, [], ◌∷◌,
  ◌++◌, Option, none, some, ltb, leb, ◌==◌, if◌then◌else◌, length, take, drop, replicate, u64_mod,
  add_u64, ◌⊎◌, inl, inr,
}

pub data RingError : Type 0 where
  bad_magic : List ℕ → RingError
  capacity_mismatch : (file expected : ℕ) → RingError
  not_power_of_two : ℕ → RingError
  full : (need avail : ℕ) → RingError
  too_small : (got need : ℕ) → RingError

abbrev pub ring_magic : List ℕ
ring_magic = b'F' ∷ b'L' ∷ b'O' ∷ b'W' ∷ b'R' ∷ b'I' ∷ b'N' ∷ b'G' ∷ []

abbrev pub data_offset : ℕ
data_offset = 192

pub record Mapping : Type 0 where
  pub size : ℕ
  pub magic : List ℕ
  pub file_capacity : ℕ
  pub write_idx : ℕ
  pub read_idx : ℕ
  pub payload : List ℕ

-- what either side keeps beside the mapping
pub record Handle : Type 0 where
  pub capacity : ℕ
  pub mask : ℕ

-- `u64::is_power_of_two`: one of the powers below 2^`bits`
abbrev pub is_power_below : ℕ → ℕ → Bool
is_power_below zero c = false
is_power_below (suc bits) c = c == 2 ^ bits || is_power_below bits c

abbrev pub same_magic : List ℕ → List ℕ → Bool
same_magic [] [] = true
same_magic [] (y ∷ ys) = false
same_magic (x ∷ xs) [] = false
same_magic (x ∷ xs) (y ∷ ys) = x == y && same_magic xs ys

unfoldable pub create : ℕ → RingError ⊎ (Handle × Mapping)
create capacity =
    if not (is_power_below 64 capacity)
    then inl (RingError.not_power_of_two capacity)
    else inr (
      record { capacity = capacity; mask = capacity - 1 },
      record {
        size = add_u64 data_offset capacity;
        magic = ring_magic;
        file_capacity = capacity;
        write_idx = 0;
        read_idx = 0;
        payload = replicate capacity 0;
      },
    )

-- `RingReader::open`
unfoldable pub open_ring : Mapping → ℕ → RingError ⊎ Handle
open_ring m expected_capacity =
    let capacity = m.file_capacity in
    let need = add_u64 data_offset capacity in
    if ltb m.size data_offset
    then inl (RingError.too_small m.size data_offset)
    else if not (same_magic m.magic ring_magic)
    then inl (RingError.bad_magic m.magic)
    else if not (is_power_below 64 capacity)
    then inl (RingError.not_power_of_two capacity)
    else if not (expected_capacity == 0) && not (expected_capacity == capacity)
    then inl (RingError.capacity_mismatch capacity expected_capacity)
    else if ltb m.size need
    then inl (RingError.too_small m.size need)
    else inr (record { capacity = capacity; mask = capacity - 1 })

-- `n` bytes from `start` on, in one slice or two
abbrev pub wrapped : Handle → List ℕ → ℕ → ℕ → List ℕ × List ℕ
wrapped h payload start n =
    if leb (start + n) h.capacity
    then (take n (drop start payload), [])
    else (drop start payload, take (n - (h.capacity - start)) payload)

unfoldable pub available : Handle → Mapping → ℕ → List ℕ × List ℕ
available h m max_bytes =
    let unread = sub_u64 m.write_idx m.read_idx in
    let n = if ltb max_bytes unread then max_bytes else unread in
    if unread == 0 then ([], []) else wrapped h m.payload (bit_and m.read_idx h.mask) n

-- The consumer's release of `n` bytes that it has copied out.
unfoldable pub advance : ℕ → Mapping → Mapping
advance n m = record m { read_idx = add_u64 m.read_idx n }

-- `read`: the number of bytes, the buffer after it, and the mapping
unfoldable pub read : Handle → Mapping → List ℕ → ℕ × List ℕ × Mapping
read h m dst =
    let (a, b) = available h m (length dst) in
    let n = length a + length b in
    if n == 0 then (0, dst, m) else (n, (a ++ b) ++ drop n dst, advance n m)

-- `copy_nonoverlapping` into a buffer at `start`
abbrev pub splice : List ℕ → ℕ → List ℕ → List ℕ
splice xs zero ys = ys ++ drop (length ys) xs
splice [] (suc start) ys = ys
splice (x ∷ xs) (suc start) ys = x ∷ splice xs start ys

-- The copy of `batch` into the payload, in one piece or two.
unfoldable pub copy_in : ℕ → List ℕ → ℕ → List ℕ → List ℕ
copy_in cap payload start batch =
    let first = cap - start in
    if leb (start + length batch) cap
    then splice payload start batch
    else splice (splice payload start (take first batch)) 0 (drop first batch)

-- The first half of `write`: the test for room and the copy.
unfoldable pub write_copy : Handle → Mapping → List ℕ → Option RingError × Mapping
write_copy h m batch =
    let free = sub_u64 h.capacity (sub_u64 m.write_idx m.read_idx) in
    if ltb free (length batch) then (some (RingError.full (length batch) free), m) else (
      none,
      record m { payload = copy_in h.capacity m.payload (bit_and m.write_idx h.mask) batch },
    )

-- The second half: the store of the cursor, behind the `wi` that was loaded.
unfoldable pub publish : ℕ → ℕ → Mapping → Mapping
publish wi n m = record m { write_idx = add_u64 wi n }

abbrev pub publish_unless : ℕ → ℕ → Option RingError × Mapping → Option RingError × Mapping
publish_unless wi n (some e, m) = (some e, m)
publish_unless wi n (none, m) = (none, publish wi n m)

unfoldable pub write : Handle → Mapping → List ℕ → Option RingError × Mapping
write h m batch = publish_unless m.write_idx (length batch) (write_copy h m batch)

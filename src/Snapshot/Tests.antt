-- ===== src/Snapshot/Tests.antt =====
-- Snapshots of concrete books.
use flowlab.Prelude.{◌≡◌, [], ◌∷◌, ◌++◌, take, to_le_bytes, inl, inr, arith}
use flowlab.Snapshot.{Snapshot, SnapshotError, to_bytes, from_bytes}
use flowlab.Snapshot.Frame.{Fits, from_bytes-to_bytes, from_bytes-take}

abbrev small_book : Snapshot
small_book = record {
  seq = 0xDEADBEEFCAFEBABE;
  state_hash = 0x1122334455667788;
  book_data = 1 ∷ 2 ∷ 3 ∷ 4 ∷ [];
}

small_book-Fits : Fits small_book
small_book-Fits = record { numbered = omega arith; hashed = omega arith }

from_bytes-to_bytes_example : from_bytes (to_bytes small_book ++ 9 ∷ []) ≡ inr small_book
from_bytes-to_bytes_example = from_bytes-to_bytes small_book (9 ∷ []) small_book-Fits

-- as the test of the source, the last two bytes dropped
from_bytes-take_example :
    from_bytes (take 30 (to_bytes small_book)) ≡ inl (SnapshotError.bad_length 4 2)
from_bytes-take_example =
    from_bytes-take small_book 30 small_book-Fits (omega arith)
      (unfold to_bytes to_le_bytes in omega arith)

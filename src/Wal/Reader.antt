-- ===== src/Wal/Reader.antt =====
-- The reader of the log, `WalReader` of replay/src/wal.rs.
use flowlab.Prelude.{
  ℕ, zero, suc, ◌+◌, List, [], Option, none, some, leb, if◌then◌else◌, length, get_or, map, ◌⊎◌,
  inl, inr, Bool, true, false,
}
use flowlab.Wal.{Dir, WalError, read_file, read_record}

-- `file` is what is left to read of the open segment. The buffer of the last record is returned
-- by `next_record`.
pub record WalReader : Type 0 where
  pub dir : Dir
  pub segments : List ℕ
  pub seg_idx : ℕ
  pub file : Option (List ℕ)
  pub segment_offset : ℕ

unfoldable pub open_reader : Dir → WalReader
open_reader dir = record {
  dir = dir;
  segments = map (λ (s : ℕ × List ℕ). s.0) dir;
  seg_idx = 0;
  file = none;
  segment_offset = 0;
}

unfoldable pub open_segment : WalReader → (WalError ⊎ Bool) × WalReader
open_segment r =
    let idx = get_or r.segments r.seg_idx 0 in
    if leb (length r.segments) r.seg_idx then (inr false, r) else elim (read_file r.dir idx) [
      | none ↦ (inl (WalError.not_found idx), r)
      | some bs ↦ (inr true, record r { file = some bs; segment_offset = 0 })
    ]

unfoldable pub ensure_file : WalReader → (WalError ⊎ Bool) × WalReader
ensure_file r = elim r.file [ some bs ↦ (inr true, r) | none ↦ open_segment r ]

abbrev pub left : WalReader → List ℕ
left r = elim r.file [ none ↦ [] | some bs ↦ bs ]

-- How a round of the loop of `next_record` ends: with `continue`, or with a `return`.
pub data Round : Type 0 where
  again : WalReader → Round
  returns : WalError ⊎ Option (List ℕ) → WalReader → Round

abbrev pub after_read : WalReader → Option (List ℕ × List ℕ) → Round
after_read s none = Round.again (record s { file = none; seg_idx = s.seg_idx + 1 })
after_read s (some (payload, rest)) =
    Round.returns (inr (some payload))
      (record s { file = some rest; segment_offset = s.segment_offset + (8 + length payload) })

abbrev pub round : (WalError ⊎ Bool) × WalReader → Round
round (inl e, s) = Round.returns (inl e) s
round (inr false, s) = Round.returns (inr none) s
round (inr true, s) = after_read s (read_record (left s))

-- The loop, with fuel.
unfoldable pub next_from : ℕ → WalReader → Option ((WalError ⊎ Option (List ℕ)) × WalReader)
next_from zero r = none
next_from (suc fuel) r = elim (round (ensure_file r)) [
  | again s ↦ next_from fuel s
  | returns x s ↦ some (x, s)
]

-- Every round but the last ends a segment.
unfoldable pub next_record : WalReader → Option ((WalError ⊎ Option (List ℕ)) × WalReader)
next_record r = next_from (suc (length r.segments)) r

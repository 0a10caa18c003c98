-- ===== src/Hash.antt =====
-- What the two Rust books share of the canonical L2 hash. xxh3 is not code of the repository: it is
-- the parameter `xxh3`, with `xxh3_64_with_seed` as `with_seed`; nothing is assumed of it here.
use Prim.Native.Nat.{bit_xor}
use flowlab.Prelude.{ℕ, List, [], ◌∷◌, ◌++◌, to_le_bytes}

pub record Xxh3 : Type 0 where
  pub xxh3 : List ℕ → ℕ
  pub with_seed : List ℕ → ℕ → ℕ

-- b"FLOWLAB-L2-v1"
abbrev pub domain_tag : List ℕ
domain_tag =
    b'F' ∷ b'L' ∷ b'O' ∷ b'W' ∷ b'L' ∷ b'A' ∷ b'B' ∷ b'-' ∷ b'L' ∷ b'2' ∷ b'-' ∷ b'v' ∷ b'1' ∷ []

-- b"|"
abbrev pub side_separator : List ℕ
side_separator = b'|' ∷ []

-- one turn of the loops: the 16-byte buffer, folded in by exclusive or
unfoldable pub fold_level : Xxh3 → ℕ → ℕ → ℕ → ℕ
fold_level x h price total_qty =
    bit_xor h (x.with_seed (to_le_bytes 8 price ++ to_le_bytes 8 total_qty) h)

-- ===== src/Wal/Crc.antt =====
-- The checksum of replay/src/wal.rs, CRC-32/IEEE.
use Prim.Native.Nat.{bit_xor}
use flowlab.Prelude.{ℕ, zero, suc, ◌-◌, ◌/◌, ◌%◌, List, ◌==◌, if◌then◌else◌, u32_mod, foldl}

unfoldable pub crc_shift : ℕ → ℕ
crc_shift c = if c % 2 == 0 then c / 2 else bit_xor 0xEDB88320 (c / 2)

unfoldable pub crc_shifts : ℕ → ℕ → ℕ
crc_shifts zero c = c
crc_shifts (suc j) c = crc_shifts j (crc_shift c)

-- `CRC32_TABLE[i]`, which this loop fills
unfoldable pub table_entry : ℕ → ℕ
table_entry i = crc_shifts 8 i

unfoldable pub crc_step : ℕ → ℕ → ℕ
crc_step crc b = bit_xor (table_entry (bit_xor crc b % 256)) (crc / 256)

-- The complement is that of 32 bits.
unfoldable pub crc32 : List ℕ → ℕ
crc32 payload = u32_mod - 1 - foldl crc_step (u32_mod - 1) payload

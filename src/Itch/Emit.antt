-- ===== src/Itch/Emit.antt =====
-- The emitters of replay/src/itch.rs, and what the messages that they write say.
use flowlab.Prelude.{ℕ, ◌/◌, ◌%◌, ◌^◌, List, [], ◌∷◌, ◌++◌, to_be_bytes}
use flowlab.Event.{Side, bid, ask}

abbrev pub side_letter : Side → ℕ
side_letter bid = b'B'
side_letter ask = b'S'

-- `[b' '; 8]`
abbrev pub no_symbol : List ℕ
no_symbol = b' ' ∷ b' ' ∷ b' ' ∷ b' ' ∷ b' ' ∷ b' ' ∷ b' ' ∷ b' ' ∷ []

-- locate and tracking number are 0; the time in 48 bits, high part first
abbrev pub emit_head : ℕ → ℕ → ℕ → List ℕ
emit_head t ts order_id =
    t
    ∷ (to_be_bytes 2 0
        ++ (to_be_bytes 2 0
            ++ (to_be_bytes 2 (ts / 2 ^ 32 % 2 ^ 16)
                ++ (to_be_bytes 4 (ts % 2 ^ 32) ++ to_be_bytes 8 order_id))))

abbrev pub emit_order : Side → ℕ → ℕ → List ℕ
emit_order side shares price =
    side_letter side ∷ (to_be_bytes 4 shares ++ (no_symbol ++ to_be_bytes 4 price))

unfoldable pub emit_add_order : List ℕ → ℕ → ℕ → Side → ℕ → ℕ → List ℕ
emit_add_order buf ts order_id side shares price =
    buf ++ (emit_head b'A' ts order_id ++ emit_order side shares price)

unfoldable pub emit_order_delete : List ℕ → ℕ → ℕ → List ℕ
emit_order_delete buf ts order_id = buf ++ emit_head b'D' ts order_id

unfoldable pub emit_trade : List ℕ → ℕ → ℕ → Side → ℕ → ℕ → List ℕ
emit_trade buf ts order_id side shares price =
    buf ++ (emit_head b'P' ts order_id ++ (emit_order side shares price ++ to_be_bytes 8 0))

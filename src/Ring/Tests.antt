-- ===== src/Ring/Tests.antt =====
-- The ring on concrete bytes.
use flowlab.Prelude.{
  sub_u64, ℕ, ◌≡◌, ◌<◌, ◌≤◌, refl, List, [], ◌∷◌, ◌++◌, length, inr, arith, u64_mod, replicate,
  add_u64,
}
use flowlab.Ring.{
  Handle, Mapping, create, ring_magic, write_copy, publish, available, advance, copy_in,
}
use flowlab.Ring.Steps.{Action, copies, publishes, looks, advances, step, steps, start}
use flowlab.Ring.Fifo.{steps-received}

abbrev four : Handle
four = record { capacity = 4; mask = 3 }

abbrev empty_ring : Mapping
empty_ring = record {
  size = 196;
  magic = ring_magic;
  file_capacity = 4;
  write_idx = 0;
  read_idx = 0;
  payload = replicate 4 0;
}

four-create : create 4 ≡ inr (four, empty_ring)
unfolding create add_u64
four-create = refl

-- The second batch wraps around the end, and is copied while the first is being read.
abbrev session : List Action
session =
    copies (1 ∷ 2 ∷ 3 ∷ [])
    ∷ publishes
    ∷ looks 2
    ∷ copies (4 ∷ [])
    ∷ advances
    ∷ publishes
    ∷ copies (5 ∷ 6 ∷ [])
    ∷ publishes
    ∷ looks 10
    ∷ advances
    ∷ []

session_received : (steps four session (start empty_ring)).received ≡ 1 ∷ 2 ∷ 3 ∷ 4 ∷ 5 ∷ 6 ∷ []
unfolding steps step write_copy publish available advance copy_in sub_u64 add_u64
session_received = refl

session_few : length (steps four session (start empty_ring)).sent < u64_mod
unfolding steps step write_copy publish available advance copy_in sub_u64 add_u64
session_few = omega arith

steps-received_example :
    (q : List ℕ) × ((steps four session (start empty_ring)).received ++ q
      ≡ (steps four session (start empty_ring)).sent)
    × (length q ≤ 4)
steps-received_example = steps-received 4 four empty_ring session four-create session_few

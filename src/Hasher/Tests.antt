-- ===== src/Hasher/Tests.antt =====
-- The verifier on two concrete sides.
use flowlab.Prelude.{ℕ, ◌≡◌, ◌⊎◌, refl, List, [], ◌∷◌, arith}
use flowlab.Hash.{Xxh3}
use flowlab.Hasher.{verify, update_all, update}
use flowlab.Hasher.Chunks.{Clash, verify-chunks}

abbrev toy_hash : Xxh3
toy_hash = record { xxh3 = λ bytes. 7; with_seed = λ bytes seed. seed }

abbrev chunks : List (List ℕ)
chunks = (1 ∷ 2 ∷ []) ∷ (3 ∷ []) ∷ []

verify-chunks_example :
    (chunks ≡ (1 ∷ 2 ∷ []) ∷ (4 ∷ []) ∷ [])
    ⊎ Clash toy_hash 0 0 chunks ((1 ∷ 2 ∷ []) ∷ (4 ∷ []) ∷ [])
verify-chunks_example =
    verify-chunks toy_hash chunks ((1 ∷ 2 ∷ []) ∷ (4 ∷ []) ∷ []) (λ bytes. omega arith) refl
      (unfold verify update_all update in refl)

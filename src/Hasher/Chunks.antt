-- ===== src/Hasher/Chunks.antt =====
-- What a verification that passes says of what the two sides hashed.
use flowlab.Prelude.{
  none, ℕ, ◌<◌, ◌≡◌, ◌≢◌, refl, ◌∙◌, ap, ap₂, sym, List, [], ◌∷◌, ◌++◌, ◌⊎◌, inl, inr, length, ◌==◌,
  to_le_bytes, from_le_bytes, from_le_bytes-to_le_bytes, length-to_le_bytes, append_cancel,
  bytes-cases, arith, u64_mod, Bool-cases,
}
use flowlab.Hash.{Xxh3}
use flowlab.Hasher.{
  StateHasher, new, update, update_all, digest, CrossLanguageVerifier, new_verifier, set_rust_hash,
  set_cpp_hash, verify,
}

input-injective :
    (h k : ℕ) (c d : List ℕ)
    → h < u64_mod
    → k < u64_mod
    → to_le_bytes 8 h ++ c ≡ to_le_bytes 8 k ++ d
    → (h ≡ k) × (c ≡ d)
input-injective h k c d hw kw e =
    let parts =
      append_cancel (to_le_bytes 8 h) (to_le_bytes 8 k) c d
        (length-to_le_bytes 8 h ∙ sym (length-to_le_bytes 8 k)) e in
    (
      sym (from_le_bytes-to_le_bytes 8 h hw)
          ∙ ap from_le_bytes parts.0
          ∙ from_le_bytes-to_le_bytes 8 k kw,
      parts.1,
    )

-- Somewhere in two runs over chunks, from the states `h` and `k`, the inputs of the two chunks of one
-- position, the state in 8 bytes and the chunk behind it, differ and xxh3 takes them to one value.
abbrev pub Clash : Xxh3 → ℕ → ℕ → List (List ℕ) → List (List ℕ) → Type 0
Clash x h k [] ds = ⊥
Clash x h k (c ∷ cs) [] = ⊥
Clash x h k (c ∷ cs) (d ∷ ds) =
    ((to_le_bytes 8 h ++ c ≢ to_le_bytes 8 k ++ d)
      × (x.xxh3 (to_le_bytes 8 h ++ c) ≡ x.xxh3 (to_le_bytes 8 k ++ d)))
    ⊎ Clash x (x.xxh3 (to_le_bytes 8 h ++ c)) (x.xxh3 (to_le_bytes 8 k ++ d)) cs ds

update_all-injective :
    (x : Xxh3) (cs ds : List (List ℕ)) (h k : StateHasher)
    → ((bytes : List ℕ) → x.xxh3 bytes < u64_mod)
    → h.state < u64_mod
    → k.state < u64_mod
    → length cs ≡ length ds
    → digest (update_all x h cs) ≡ digest (update_all x k ds)
    → ((h.state ≡ k.state) × (cs ≡ ds)) ⊎ Clash x h.state k.state cs ds
unfolding update_all update
update_all-injective x [] [] h k word hw kw l e = inl (e, refl)
update_all-injective x [] (d ∷ ds) h k word hw kw l e = absurd (omega (arith, l))
update_all-injective x (c ∷ cs) [] h k word hw kw l e = absurd (omega (arith, l))
update_all-injective x (c ∷ cs) (d ∷ ds) h k word hw kw l e =
    elim (update_all-injective x cs ds _ _ word (word _) (word _) (omega (arith, l)) e) [
      | inr later ↦ inr (inr later)
      | inl (same, rest) ↦
          elim (bytes-cases (to_le_bytes 8 h.state ++ c) (to_le_bytes 8 k.state ++ d)) [
            | inl inputs ↦
                let heads = input-injective h.state k.state c d hw kw inputs in
                inl (heads.0, ap₂ (λ y ys. y ∷ ys) heads.1 rest)
            | inr differ ↦ inr (inl (differ, same))
          ]
    ]

verify-equal : (v : CrossLanguageVerifier) → verify v ≡ none → v.rust_hash ≡ v.cpp_hash
unfolding verify
verify-equal v ok = elim (Bool-cases (v.rust_hash == v.cpp_hash)) [
  | inl same ↦ ground arith
  | inr differ ↦ absurd (ground arith)
]

-- When the verifier passes the hashes of two sides that each fed a new hasher as many chunks, the
-- chunks are the same in the same order, or at some position the two sides hashed different inputs,
-- each its state in 8 bytes and its chunk behind it, that xxh3 takes to one value. xxh3 gives words of
-- 64 bits.
pub verify-chunks :
    (x : Xxh3) (rust cpp : List (List ℕ))
    → ((bytes : List ℕ) → x.xxh3 bytes < u64_mod)
    → length rust ≡ length cpp
    → verify (
        set_cpp_hash
          (set_rust_hash new_verifier (digest (update_all x new rust)))
          (digest (update_all x new cpp)))
      ≡ none
    → (rust ≡ cpp) ⊎ Clash x 0 0 rust cpp
verify-chunks x rust cpp word l ok =
    elim (update_all-injective x rust cpp new new word (omega arith) (omega arith) l
      (verify-equal _ ok)) [ inl (start, same) ↦ inl same | inr clash ↦ inr clash ]

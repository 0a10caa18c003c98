-- ===== src/Hasher.antt =====
-- `StateHasher` and `CrossLanguageVerifier` of verify/src: a running hash over chunks of bytes, and
-- the comparison of two hashes.
pub mod Chunks
mod Tests
use flowlab.Prelude.{ℕ, Option, none, some, List, [], ◌∷◌, ◌++◌, ◌==◌, if◌then◌else◌, to_le_bytes}
use flowlab.Hash.{Xxh3}

pub record StateHasher : Type 0 where
  pub state : ℕ

abbrev pub new : StateHasher
new = record { state = 0 }

abbrev pub default : StateHasher
default = new

-- H(prev || data)
unfoldable pub update : Xxh3 → StateHasher → List ℕ → StateHasher
update x h bytes = record { state = x.xxh3 (to_le_bytes 8 h.state ++ bytes) }

abbrev pub digest : StateHasher → ℕ
digest h = h.state

abbrev pub reset : StateHasher → StateHasher
reset h = record { state = 0 }

-- one chunk after the other
unfoldable pub update_all : Xxh3 → StateHasher → List (List ℕ) → StateHasher
update_all x h [] = h
update_all x h (c ∷ cs) = update_all x (update x h c) cs

pub record CrossLanguageVerifier : Type 0 where
  pub rust_hash : ℕ
  pub cpp_hash : ℕ

pub data VerificationError : Type 0 where
  hash_mismatch : (rust_hash cpp_hash : ℕ) → VerificationError

abbrev pub new_verifier : CrossLanguageVerifier
new_verifier = record { rust_hash = 0; cpp_hash = 0 }

abbrev pub default_verifier : CrossLanguageVerifier
default_verifier = new_verifier

abbrev pub set_rust_hash : CrossLanguageVerifier → ℕ → CrossLanguageVerifier
set_rust_hash v hash = record v { rust_hash = hash }

abbrev pub set_cpp_hash : CrossLanguageVerifier → ℕ → CrossLanguageVerifier
set_cpp_hash v hash = record v { cpp_hash = hash }

-- `Ok(())` is `none`
unfoldable pub verify : CrossLanguageVerifier → Option VerificationError
verify v =
    if v.rust_hash == v.cpp_hash
    then none
    else some (VerificationError.hash_mismatch v.rust_hash v.cpp_hash)

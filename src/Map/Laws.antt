-- ===== src/Map/Laws.antt =====
-- What the program relies on of its maps.
use flowlab.Prelude.{
  ℕ, ◌<◌, ◌≡◌, refl, none, some, [], ◌∷◌, All, length, suc, ◌==◌, if◌then◌else◌, arith,
}
use flowlab.Map.{Map, get, insert, remove, IsOrdered}

module _ {ℓ} {V : Type ℓ} where
  pub get-insert :
      (k j : ℕ) (v : V) (m : Map V) → get j (insert k v m) ≡ (if k == j then some v else get j m)
  unfolding get insert
  get-insert k j v [] = refl
  get-insert k j v ((i, w) ∷ m) = ground (arith, get-insert k j v m)

  pub get-remove : (k j : ℕ) (m : Map V) → get j (remove k m) ≡ (if k == j then none else get j m)
  unfolding get remove
  get-remove k j [] = ground arith
  get-remove k j ((i, w) ∷ m) = ground (arith, get-remove k j m)

  pub All-insert {κ} :
      (P : ℕ × V → Type κ) (k : ℕ) (v : V) (m : Map V) → P (k, v) → All P m → All P (insert k v m)
  unfolding insert
  All-insert P k v [] h a = (h, tt)
  All-insert P k v ((j, w) ∷ m) h a = ground (arith, All-insert P k v m h a.1)

  pub All-remove {κ} : (P : ℕ × V → Type κ) (k : ℕ) (m : Map V) → All P m → All P (remove k m)
  unfolding remove
  All-remove P k [] a = tt
  All-remove P k ((j, w) ∷ m) a = ground (arith, All-remove P k m a.1)

  -- the keys above `n`
  abbrev pub Above : ℕ → Map V → Type 0
  Above n m = All (λ (e : ℕ × V). n < e.0) m

  pub Above-trans : (n k : ℕ) (m : Map V) → n < k → Above k m → Above n m
  Above-trans n k [] h a = tt
  Above-trans n k ((j, w) ∷ m) h a = (omega arith, Above-trans n k m h a.1)

  pub insert-IsOrdered : (k : ℕ) (v : V) (m : Map V) → IsOrdered m → IsOrdered (insert k v m)
  unfolding insert
  insert-IsOrdered k v [] o = (tt, tt)
  insert-IsOrdered k v ((j, w) ∷ m) o = ground (
    arith,
    insert-IsOrdered k v m o.1,
    All-insert (λ (e : ℕ × V). j < e.0) k v m,
    Above-trans k j m,
    o.0,
    o.1,
  )

  pub remove-IsOrdered : (k : ℕ) (m : Map V) → IsOrdered m → IsOrdered (remove k m)
  unfolding remove
  remove-IsOrdered k [] o = tt
  remove-IsOrdered k ((j, w) ∷ m) o =
      ground (arith, remove-IsOrdered k m o.1, All-remove (λ (e : ℕ × V). j < e.0) k m o.0)

  -- A new key makes the map longer by one.
  pub length-insert :
      (k : ℕ) (v : V) (m : Map V) → get k m ≡ none → length (insert k v m) ≡ suc (length m)
  unfolding get insert
  length-insert k v [] h = refl
  length-insert k v ((j, w) ∷ m) h = ground (arith, length-insert k v m)

pub ruleset map_laws = (get-insert, get-remove)

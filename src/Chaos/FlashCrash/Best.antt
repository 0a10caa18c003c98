-- ===== src/Chaos/FlashCrash/Best.antt =====
-- The best prices of a side's map under the changes that chaos/src/flash_crash.rs makes.
use flowlab.Prelude.{
  ℕ, zero, suc, ◌≤◌, ◌<◌, ◌≡◌, refl, sym, ap, ◌∙◌, max, min, false, Option, none, some, [], ◌∷◌,
  All, leb, ◌==◌, if◌then◌else◌, length, arith, Bool-cases, inl, inr,
}
use flowlab.Map
use flowlab.Map.{Map, IsOrdered}
use flowlab.Map.Laws.{remove-IsOrdered}
use flowlab.Chaos.MiniBook.{price_of, farthest, without, prune_loop}
use flowlab.Chaos.FlashCrash.Book.{is_price}

abbrev pub last_price : Map ℕ → Option ℕ
last_price m = price_of (Map.last m)

abbrev pub first_price : Map ℕ → Option ℕ
first_price m = price_of (Map.first m)

abbrev pub max_price : Option ℕ → ℕ → ℕ
max_price none k = k
max_price (some j) k = max j k

abbrev pub min_price : Option ℕ → ℕ → ℕ
min_price none k = k
min_price (some j) k = min j k

-- every key of an ordered map is at most the last
pub last-le :
    (j v : ℕ) (m : Map ℕ)
    → IsOrdered ((j, v) ∷ m)
    → (k : ℕ) × (last_price ((j, v) ∷ m) ≡ some k) × (j ≤ k)
unfolding Map.last
last-le j v [] o = (j, refl, omega arith)
last-le j v ((i, w) ∷ m) o = let (k, e, l) = last-le i w m o.1 in (k, e, omega (arith, l, o.0.0))

pub last-insert :
    (k v : ℕ) (m : Map ℕ)
    → IsOrdered m
    → last_price (Map.insert k v m) ≡ some (max_price (last_price m) k)
unfolding Map.insert Map.last
last-insert k v [] o = refl
last-insert k v ((j, w) ∷ []) o = ground arith
last-insert k v ((j, w) ∷ (i, u) ∷ m) o =
    ground (arith, last-insert k v ((i, u) ∷ m) o.1, last-le i u m o.1, o.0.0)

pub first-insert :
    (k v : ℕ) (m : Map ℕ)
    → IsOrdered m
    → first_price (Map.insert k v m) ≡ some (min_price (first_price m) k)
unfolding Map.insert Map.first
first-insert k v [] o = refl
first-insert k v ((j, w) ∷ m) o = ground arith

remove_absent : (k : ℕ) (m : Map ℕ) → All (λ (e : ℕ × ℕ). k < e.0) m → Map.remove k m ≡ m
unfolding Map.remove
remove_absent k [] a = refl
remove_absent k ((j, w) ∷ m) a = ground (arith, remove_absent k m a.1)

-- Pruning takes the first bid, or the last ask, of two or more, so the best stays.
last-remove_first :
    (j w : ℕ) (m : Map ℕ)
    → 1 ≤ length m
    → IsOrdered ((j, w) ∷ m)
    → last_price (Map.remove j ((j, w) ∷ m)) ≡ last_price ((j, w) ∷ m)
unfolding Map.remove Map.last
last-remove_first j w [] l o = absurd (omega arith)
last-remove_first j w ((i, u) ∷ m) l o =
    ground (arith, ap last_price (remove_absent j ((i, u) ∷ m) o.0))

first-remove_last :
    (j w k : ℕ) (m : Map ℕ)
    → 1 ≤ length m
    → IsOrdered ((j, w) ∷ m)
    → last_price ((j, w) ∷ m) ≡ some k
    → first_price (Map.remove k ((j, w) ∷ m)) ≡ some j
unfolding Map.remove Map.first Map.last
first-remove_last j w k [] l o e = absurd (omega arith)
first-remove_last j w k ((i, u) ∷ m) l o e = ground (arith, last-le i u m o.1, e, o.0.0)

-- the best of a side
abbrev pub best_of : ℕ → Map ℕ → Option ℕ
best_of side m = if side == 0 then last_price m else first_price m

without-IsOrdered : (m : Map ℕ) (o : Option ℕ) → IsOrdered m → IsOrdered (without m o)
without-IsOrdered m none h = h
without-IsOrdered m (some k) h = remove-IsOrdered k m h

best-without :
    (side : ℕ) (m : Map ℕ)
    → 1 < length m
    → IsOrdered m
    → best_of side (without m (farthest side m)) ≡ best_of side m
unfolding farthest Map.first
best-without side [] l o = absurd (omega arith)
best-without side ((j, w) ∷ m) l o = elim (Bool-cases (side == 0)) [
  | inl bid ↦ rw bid (last-remove_first j w m (omega arith) o)
  | inr ask ↦
      let (k, e, h) = last-le j w m o in rw (ask, e) (first-remove_last j w k m (omega arith) o e)
]

pub prune_loop-best :
    (fuel side cap : ℕ) (m : Map ℕ)
    → 1 ≤ cap
    → IsOrdered m
    → (best_of side (prune_loop fuel side cap m) ≡ best_of side m)
      × IsOrdered (prune_loop fuel side cap m)
unfolding prune_loop
prune_loop-best zero side cap m c o = (refl, o)
prune_loop-best (suc fuel) side cap m c o = elim (Bool-cases (leb (length m) cap)) [
  | inl fits ↦ rw fits (refl, o)
  | inr long ↦
      let rest = without m (farthest side m) in
      let ih = prune_loop-best fuel side cap rest c (without-IsOrdered m (farthest side m) o) in
      rw long (ih.0 ∙ best-without side m (ground (arith, long)) o, ih.1)
]

pub get-le-last :
    (k v j : ℕ) (m : Map ℕ) → IsOrdered m → Map.get k m ≡ some v → last_price m ≡ some j → k ≤ j
unfolding Map.get Map.last
get-le-last k v j [] o g e = cc
get-le-last k v j ((i, w) ∷ []) o g e = ground arith
get-le-last k v j ((i, w) ∷ (h, u) ∷ m) o g e =
    ground (arith, get-le-last k v j ((h, u) ∷ m) o.1, last-le h u m o.1, o.0.0)

pub first-le-get :
    (k v j : ℕ) (m : Map ℕ) → IsOrdered m → Map.get k m ≡ some v → first_price m ≡ some j → j ≤ k
unfolding Map.get Map.first
first-le-get k v j [] o g e = cc
first-le-get k v j ((i, w) ∷ m) o g e = elim (Bool-cases (i == k)) [
  | inl here ↦ ground (arith, here)
  | inr later ↦
      let g' : Map.get k m ≡ some v = rw later at g in ground (arith, get-above i k v m o.0 g')
]
  where
    get-above :
        (i k v : ℕ) (m : Map ℕ) → All (λ (e : ℕ × ℕ). i < e.0) m → Map.get k m ≡ some v → i < k
    get-above i k v [] a g = cc
    get-above i k v ((h, u) ∷ m) a g = ground (arith, get-above i k v m a.1)

last-cons : (i w j : ℕ) (m : Map ℕ) → last_price m ≡ some j → last_price ((i, w) ∷ m) ≡ some j
unfolding Map.last
last-cons i w j [] e = cc
last-cons i w j (h ∷ m) e = e

pub last-remove_other :
    (k : ℕ) (m : Map ℕ)
    → IsOrdered m
    → is_price (last_price m) k ≡ false
    → last_price (Map.remove k m) ≡ last_price m
unfolding Map.remove Map.last is_price
last-remove_other k [] o n = refl
last-remove_other k ((i, w) ∷ []) o n = ground arith
last-remove_other k ((i, w) ∷ (h, u) ∷ m) o n =
    let ih = last-remove_other k ((h, u) ∷ m) o.1 n in
    let (j, e, l) = last-le h u m o.1 in
    elim (Bool-cases (i == k)) [
      | inl here ↦ rw here ih
      | inr later ↦ rw later (last-cons i w j (Map.remove k ((h, u) ∷ m)) (ih ∙ e) ∙ sym e)
    ]

pub first-remove_other :
    (k : ℕ) (m : Map ℕ)
    → is_price (first_price m) k ≡ false
    → first_price (Map.remove k m) ≡ first_price m
unfolding Map.remove Map.first is_price
first-remove_other k [] n = refl
first-remove_other k ((i, w) ∷ m) n = ground arith

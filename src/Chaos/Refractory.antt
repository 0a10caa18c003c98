-- ===== src/Chaos/Refractory.antt =====
-- The refractory period that the detectors of chaos/src share: a flag arms it, and no other flag comes
-- before it is over.
use flowlab.Prelude.{
  ℕ, ◌≤◌, ◌≡◌, sym, Option, none, some, List, [], ◌∷◌, ◌++◌, saturating_add, subst,
}
use flowlab.Event.{SequencedEvent}
use flowlab.Chaos.{ChaosEvent}

abbrev pub flags_of : {F : Type 0} → Option (ChaosEvent F) → List (ChaosEvent F)
flags_of none = []
flags_of (some f) = f ∷ []

-- The first flag ends at `until` or later, and each other one a cooldown after the one before it.
abbrev pub Spaced : {F : Type 0} → ℕ → ℕ → List (ChaosEvent F) → Type 0
Spaced cooldown until [] = Unit
Spaced cooldown until (f ∷ fs) =
    (until ≤ f.end_seq) × Spaced cooldown (saturating_add f.end_seq cooldown) fs

-- A detector by its `process`, and the two fields that the guard reads.
module _ {S F : Type 0} (process : S → SequencedEvent → Option (ChaosEvent F) × S)
    (until cooldown : S → ℕ) where
  -- A step keeps the period, or raises a flag once it is over and arms the next.
  abbrev pub Rests : S → ℕ → Option (ChaosEvent F) × S → Type 0
  Rests c seq (none, d) = (cooldown d ≡ cooldown c) × (until d ≡ until c)
  Rests c seq (some f, d) =
      (cooldown d ≡ cooldown c)
      × (until d ≡ saturating_add seq (cooldown c))
      × (until c ≤ seq)
      × (f.end_seq ≡ seq)

  -- the flags of some events, in order
  abbrev pub flags : S → List SequencedEvent → List (ChaosEvent F)
  flags c [] = []
  flags c (e ∷ es) = flags_of (process c e).0 ++ flags (process c e).1 es

  step-Spaced :
      (c : S) (seq : ℕ) (r : Option (ChaosEvent F) × S) (fs : List (ChaosEvent F))
      → Rests c seq r
      → Spaced (cooldown r.1) (until r.1) fs
      → Spaced (cooldown c) (until c) (flags_of r.0 ++ fs)
  step-Spaced c seq (none, d) fs (same, q) s =
      subst (λ k. Spaced k (until c) fs) same (subst (λ k. Spaced (cooldown d) k fs) q s)
  step-Spaced c seq (some f, d) fs (same, next, over, at_event) s = (
    subst (λ k. until c ≤ k) (sym at_event) over,
    subst (λ k. Spaced (cooldown c) (saturating_add k (cooldown c)) fs) (sym at_event)
        (subst (λ k. Spaced k (saturating_add seq (cooldown c)) fs) same
          (subst (λ k. Spaced (cooldown d) k fs) next s)),
  )

  pub flags-Spaced :
      ((c : S) (e : SequencedEvent) → Rests c e.seq (process c e))
      → (c : S) (es : List SequencedEvent) → Spaced (cooldown c) (until c) (flags c es)
  flags-Spaced step c [] = tt
  flags-Spaced step c (e ∷ es) =
      step-Spaced c e.seq (process c e) (flags (process c e).1 es) (step c e)
        (flags-Spaced step (process c e).1 es)

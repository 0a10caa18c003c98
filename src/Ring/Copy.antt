-- ===== src/Ring/Copy.antt =====
-- Where the bytes lie in the ring of replay/src/ring_reader.rs after a copy into it.
use flowlab.Prelude.{
  ℕ, zero, suc, ◌+◌, ◌-◌, ◌≤◌, ◌<◌, ◌≡◌, refl, ◌∙◌, ap, sym, List, [], ◌∷◌, length, length-append,
  length-drop, length-take, take, drop, get_or, get_or-drop, get_or-take, get_or-append, leb, arith,
  Bool-cases, ◌⊎◌, inl, inr,
}
use flowlab.Ring.{splice, copy_in}

-- The byte at `p`, which lies `p - start` behind the start of the copy where it is not before it.
splice_inside :
    (xs : List ℕ) (start : ℕ) (ys : List ℕ) (p : ℕ)
    → start ≤ p
    → p < start + length ys
    → start ≤ length xs
    → get_or (splice xs start ys) p 0 ≡ get_or ys (p - start) 0
splice_inside xs zero ys p h k room =
    (get_or-append ys (drop (length ys) xs) p 0).0 (omega arith)
    ∙ ap (λ i. get_or ys i 0) (omega arith)
splice_inside [] (suc start) ys p h k room = absurd (omega arith)
splice_inside (x ∷ xs) (suc start) ys zero h k room = absurd (omega arith)
splice_inside (x ∷ xs) (suc start) ys (suc p) h k room =
    splice_inside xs start ys p (omega arith) (omega arith) (omega arith)
    ∙ ap (λ i. get_or ys i 0) (omega arith)

splice_before :
    (xs : List ℕ) (start : ℕ) (ys : List ℕ) (p : ℕ)
    → p < start
    → start ≤ length xs
    → get_or (splice xs start ys) p 0 ≡ get_or xs p 0
splice_before xs zero ys p h room = absurd (omega arith)
splice_before [] (suc start) ys p h room = absurd (omega arith)
splice_before (x ∷ xs) (suc start) ys zero h room = refl
splice_before (x ∷ xs) (suc start) ys (suc p) h room =
    splice_before xs start ys p (omega arith) (omega arith)

splice_behind :
    (xs : List ℕ) (start : ℕ) (ys : List ℕ) (p : ℕ)
    → start + length ys ≤ p
    → start ≤ length xs
    → get_or (splice xs start ys) p 0 ≡ get_or xs p 0
splice_behind xs zero ys p h room =
    (get_or-append ys (drop (length ys) xs) p 0).1 (omega arith)
    ∙ sym (get_or-drop xs (length ys) (p - length ys) 0)
    ∙ ap (λ i. get_or xs i 0) (omega arith)
splice_behind [] (suc start) ys p h room = absurd (omega arith)
splice_behind (x ∷ xs) (suc start) ys zero h room = absurd (omega arith)
splice_behind (x ∷ xs) (suc start) ys (suc p) h room =
    splice_behind xs start ys p (omega arith) (omega arith)

length-splice :
    (xs : List ℕ) (start : ℕ) (ys : List ℕ)
    → start + length ys ≤ length xs
    → length (splice xs start ys) ≡ length xs
length-splice xs zero ys room =
    omega (arith, length-append ys (drop (length ys) xs), length-drop (length ys) xs)
length-splice [] (suc start) ys room = absurd (omega arith)
length-splice (x ∷ xs) (suc start) ys room = ap suc (length-splice xs start ys (omega arith))

module _ (cap : ℕ) (payload : List ℕ) (start : ℕ) (batch : List ℕ) (whole : length payload ≡ cap)
    (inside : start < cap) (room : length batch ≤ cap) where
  abbrev first : ℕ
  first = cap - start

  abbrev once : List ℕ
  once = splice payload start (take first batch)

  -- the sizes of the two pieces of a copy that wraps
  length-once : length once ≡ cap
  length-once =
      length-splice payload start (take first batch) (omega (arith, length-take first batch, whole))
      ∙ whole

  pub length-copy_in : length (copy_in cap payload start batch) ≡ cap
  unfolding copy_in
  length-copy_in = elim (Bool-cases (leb (start + length batch) cap)) [
    | inl one ↦ rw one (length-splice payload start batch (ground (arith, whole)) ∙ whole)
    | inr two ↦ rw two (
        length-splice once 0 (drop first batch)
          (omega (arith, length-drop first batch, length-once, room))
        ∙ length-once)
  ]

  -- Byte `t` of the batch lies `t` places behind the start, around the end.
  pub copy_in-placed :
      (p t : ℕ)
      → p < cap
      → t < length batch
      → ((p ≡ start + t) ⊎ (p + cap ≡ start + t))
      → get_or (copy_in cap payload start batch) p 0 ≡ get_or batch t 0
  unfolding copy_in
  copy_in-placed p t below h at = elim (Bool-cases (leb (start + length batch) cap)) [
    | inl one ↦
        let fits : start + length batch ≤ cap = ground arith in
        let here : p ≡ start + t = elim at [ inl e ↦ e | inr e ↦ absurd (omega (arith, e)) ] in
        rw one (
          splice_inside payload start batch p (omega (arith, here)) (omega (arith, here))
            (omega (arith, whole))
          ∙ ap (λ i. get_or batch i 0) (omega (arith, here)))
    | inr two ↦
        let past : cap < start + length batch = ground arith in
        let size = length-take first batch in
        let size_left = length-drop first batch in
        rw two (elim at [
          | inl here ↦
              splice_behind once 0 (drop first batch) p (omega (arith, here, size_left))
                (omega arith)
              ∙ splice_inside payload start (take first batch) p (omega (arith, here))
                  (omega (arith, here, size)) (omega (arith, whole))
              ∙ get_or-take first batch (p - start) 0 (omega (arith, here))
              ∙ ap (λ i. get_or batch i 0) (omega (arith, here))
          | inr there ↦
              splice_inside once 0 (drop first batch) p (omega arith)
                (omega (arith, there, size_left)) (omega arith)
              ∙ ap (λ i. get_or (drop first batch) i 0) (omega arith)
              ∙ sym (get_or-drop batch first p 0)
              ∙ ap (λ i. get_or batch i 0) (omega (arith, there))
        ])
  ]

  -- A place that the batch does not reach keeps its byte.
  pub copy_in-kept :
      (p : ℕ)
      → p < cap
      → ((start + length batch ≤ p) ⊎ ((p < start) × (start + length batch ≤ p + cap)))
      → get_or (copy_in cap payload start batch) p 0 ≡ get_or payload p 0
  unfolding copy_in
  copy_in-kept p below out = elim (Bool-cases (leb (start + length batch) cap)) [
    | inl one ↦ rw one (elim out [
      | inl behind ↦ splice_behind payload start batch p behind (omega (arith, whole))
      | inr before ↦ splice_before payload start batch p before.0 (omega (arith, whole))
    ])
    | inr two ↦
        let past : cap < start + length batch = ground arith in
        let size_left = length-drop first batch in
        rw two (elim out [
          | inl behind ↦ absurd (omega (arith, behind))
          | inr before ↦
              let front = before.0 in
              let reach = before.1 in
              splice_behind once 0 (drop first batch) p (omega (arith, reach, size_left))
                (omega arith)
              ∙ splice_before payload start (take first batch) p front (omega (arith, whole))
        ])
  ]

-- ===== src/Ring/Window.antt =====
-- The bytes of a queue in the ring of replay/src/ring_reader.rs: where a cursor points, what a copy
-- behind them leaves, and what the slices of `available` show.
use flowlab.Prelude.{
  ℕ, ◌+◌, ◌-◌, ◌%◌, ◌≤◌, ◌<◌, ◌≡◌, ◌∙◌, ap, sym, List, ◌++◌, append-nil, length, length-append,
  length-drop, length-take, take, drop, get_or, get_or-drop, get_or-take, get_or-append, get_or_ext,
  ltb, leb, arith, Bool-cases, ◌⊎◌, inl, inr, mod-wrap,
}
use native.Mathlib.Nat.{mod-lt}
use flowlab.Ring.{copy_in, wrapped}
use flowlab.Ring.Copy.{copy_in-placed, copy_in-kept}

-- The bytes from the cursor `r` on, around the end.
abbrev pub Stored : (cap r : ℕ) → List ℕ → List ℕ → Type 0
Stored cap r payload bytes =
    (j : ℕ) → j < length bytes → get_or payload ((r + j) % cap) 0 ≡ get_or bytes j 0

-- Two places of the ring, from that of the cursor on.
module _ (cap r : ℕ) (pos : 0 < cap) (j q n : ℕ) (near : j < q + n) (room : q + n ≤ cap) where
  place_kept :
      j < q
      → (((r + q) % cap + n ≤ (r + j) % cap)
          ⊎ (((r + j) % cap < (r + q) % cap) × ((r + q) % cap + n ≤ (r + j) % cap + cap)))
  place_kept h =
      let here = mod-wrap r cap j pos (omega arith) in
      let there = mod-wrap r cap q pos (omega arith) in ground (arith, here, there, h)

  place_reached :
      q ≤ j
      → (((r + j) % cap ≡ (r + q) % cap + (j - q))
          ⊎ ((r + j) % cap + cap ≡ (r + q) % cap + (j - q)))
  place_reached h =
      let here = mod-wrap r cap j pos (omega arith) in
      let there = mod-wrap r cap q pos (omega arith) in ground (arith, here, there, h)

pub place-lt : (r cap : ℕ) → 0 < cap → r % cap < cap
place-lt r cap pos = mod-lt r pos

module _ (cap r : ℕ) (payload queue : List ℕ) (whole : length payload ≡ cap) (pos : 0 < cap) where
  pub Stored-copy_in :
      (batch : List ℕ)
      → length queue + length batch ≤ cap
      → Stored cap r payload queue
      → Stored cap r (copy_in cap payload ((r + length queue) % cap) batch) (queue ++ batch)
  Stored-copy_in batch room stored j h =
      let q = length queue in
      let start = (r + q) % cap in
      let p = (r + j) % cap in
      let size = length-append queue batch in
      let near : j < q + length batch = omega (arith, size) in
      let parts = get_or-append queue batch j 0 in
      let below = place-lt (r + j) cap pos in
      let start_below = place-lt (r + q) cap pos in
      elim (Bool-cases (ltb j q)) [
        | inl old ↦
            let before : j < q = ground arith in
            copy_in-kept cap payload start batch whole start_below (omega arith) p below
              (place_kept cap r pos j q (length batch) near room before)
            ∙ stored j before
            ∙ sym (parts.0 before)
        | inr new ↦
            let behind : q ≤ j = ground arith in
            copy_in-placed cap payload start batch whole start_below (omega arith) p (j - q) below
              (omega arith) (place_reached cap r pos j q (length batch) near room behind)
            ∙ sym (parts.1 behind)
      ]

  -- The slices show the first bytes of the queue.
  pub wrapped-Stored :
      (n mask : ℕ)
      → n ≤ length queue
      → length queue ≤ cap
      → Stored cap r payload queue
      → (wrapped (record { capacity = cap; mask = mask }) payload (r % cap) n).0
          ++ (wrapped (record { capacity = cap; mask = mask }) payload (r % cap) n).1
        ≡ take n queue
  wrapped-Stored n mask some_bytes room stored = elim (Bool-cases (leb (r % cap + n) cap)) [
    | inl one ↦
        let fits : r % cap + n ≤ cap = ground arith in
        rw one (
          append-nil (take n (drop (r % cap) payload))
          ∙ get_or_ext 0 (take n (drop (r % cap) payload)) (take n queue)
              (omega (
                arith,
                length-take n (drop (r % cap) payload),
                length-drop (r % cap) payload,
                length-take n queue,
                whole,
              ))
              (λ i h.
                let early : i < n = omega (arith, length-take n (drop (r % cap) payload)) in
                get_or-take n (drop (r % cap) payload) i 0 early
                ∙ sym (get_or-drop payload (r % cap) i 0)
                ∙ straight i early (omega arith)))
    | inr two ↦
        let past : cap < r % cap + n = ground arith in
        let front = drop (r % cap) payload in
        let first = cap - r % cap in
        let below = place-lt r cap pos in
        let size : length front ≡ first =
          length-drop (r % cap) payload ∙ ap (λ c. c - r % cap) whole in
        let size_left = length-take (n - first) payload in
        rw two (
          get_or_ext 0 (front ++ take (n - first) payload) (take n queue)
            (omega (
              arith,
              length-append front (take (n - first) payload),
              size,
              size_left,
              length-take n queue,
              whole,
              below,
            ))
            (λ i h.
              let early : i < n = omega (
                arith,
                length-append front (take (n - first) payload),
                size,
                size_left,
                whole,
                below,
              ) in
              let parts = get_or-append front (take (n - first) payload) i 0 in
              elim (Bool-cases (ltb i first)) [
                | inl in_front ↦
                    let ahead : i < first = ground arith in
                    parts.0 (omega (arith, size))
                    ∙ sym (get_or-drop payload (r % cap) i 0)
                    ∙ straight i early (omega arith)
                | inr behind ↦
                    let around : first ≤ i = ground arith in
                    parts.1 (omega (arith, size))
                    ∙ get_or-take (n - first) payload (i - length front) 0 (omega (arith, size))
                    ∙ ap (λ k. get_or payload k 0)
                        (omega (arith, size, turned i early (omega arith)))
                    ∙ shown i early
              ]))
  ]
    where
      shown : (i : ℕ) → i < n → get_or payload ((r + i) % cap) 0 ≡ get_or (take n queue) i 0
      shown i h = stored i (omega arith) ∙ sym (get_or-take n queue i 0 h)

      straight :
          (i : ℕ)
          → i < n
          → r % cap + i < cap
          → get_or payload (r % cap + i) 0 ≡ get_or (take n queue) i 0
      straight i h fits =
          let here = mod-wrap r cap i pos (omega arith) in
          let place : r % cap + i ≡ (r + i) % cap = ground (arith, here) in
          ap (λ k. get_or payload k 0) place ∙ shown i h

      turned : (i : ℕ) → i < n → cap ≤ r % cap + i → (r + i) % cap + cap ≡ r % cap + i
      turned i h past = let here = mod-wrap r cap i pos (omega arith) in ground (arith, here)

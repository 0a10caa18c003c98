-- ===== src/Ring/Calls.antt =====
-- The calls `write` and `read` of replay/src/ring_reader.rs are the two steps of their side, one
-- after the other.
use flowlab.Prelude.{
  sub_u64, ℕ, ◌+◌, ◌<◌, ◌≡◌, refl, ◌∙◌, ap, ap₂, sym, List, [], ◌∷◌, ◌++◌, Option, none, some,
  length, length-append, take, take-length, drop, ltb, ◌==◌, arith, Bool-cases, inl, inr, u64_mod,
  add_u64_of_lt,
}
use flowlab.Ring.{Handle, Mapping, RingError, available, advance, read, write, write_copy, publish}
use flowlab.Ring.Steps.{System, copies, publishes, looks, advances, step, steps}

abbrev pub idle : Mapping → List ℕ → List ℕ → System
idle m sent received = record {
  mapping = m;
  writing = none;
  reading = none;
  sent = sent;
  received = received;
}

-- what a call leaves published
abbrev pub sent_after : List ℕ → List ℕ → Option RingError → List ℕ
sent_after sent batch none = sent ++ batch
sent_after sent batch (some e) = sent

-- While no other step comes between, a call of `write` is a copy and a publication: the same mapping,
-- and the batch is published where it returns no error. With a read cursor of 64 bits a call of
-- `read` is a look and an advance: the same mapping, and the bytes received are those that it wrote
-- into its buffer.
pub steps-calls :
    (h : Handle) (m : Mapping) (sent received batch dst : List ℕ)
    → m.read_idx < u64_mod
    → (steps h (copies batch ∷ publishes ∷ []) (idle m sent received)
        ≡ idle (write h m batch).1 (sent_after sent batch (write h m batch).0) received)
      × (steps h (looks (length dst) ∷ advances ∷ []) (idle m sent received)
          ≡ idle (read h m dst).2 sent (received ++ take (read h m dst).0 (read h m dst).1))
steps-calls h m sent received batch dst word = (writes, reads)
  where
    nil : (xs : List ℕ) → length xs ≡ 0 → xs ≡ []
    nil [] e = refl
    nil (x ∷ xs) e = absurd (omega (arith, e))

    advance-zero : advance 0 m ≡ m
    advance-zero =
        unfold advance in
        ap (λ n. record m { read_idx = n }) (add_u64_of_lt m.read_idx 0 (omega arith) ∙ omega arith)

    writes :
        steps h (copies batch ∷ publishes ∷ []) (idle m sent received)
        ≡ idle (write h m batch).1 (sent_after sent batch (write h m batch).0) received
    writes =
        elim (Bool-cases
          (ltb (sub_u64 h.capacity (sub_u64 m.write_idx m.read_idx)) (length batch))) [
            | inl over ↦ unfold steps step write write_copy in rw over refl
            | inr fits ↦ unfold steps step write write_copy publish in rw fits refl
          ]

    reads :
        steps h (looks (length dst) ∷ advances ∷ []) (idle m sent received)
        ≡ idle (read h m dst).2 sent (received ++ take (read h m dst).0 (read h m dst).1)
    reads =
        let (a, b) = available h m (length dst) in
        let size = length-append a b in
        elim (Bool-cases (length a + length b == 0)) [
          | inl empty ↦
              let none_there : length (a ++ b) ≡ 0 = ground (arith, size, empty) in
              unfold steps step read advance in
              rw empty (
                ap₂ (λ m2 l. idle m2 sent (received ++ l))
                  (ap (λ n. advance n m) none_there ∙ advance-zero) (nil (a ++ b) none_there))
          | inr more ↦
              unfold steps step read advance in
              rw more (
                ap₂ (λ n l. idle (advance n m) sent (received ++ l)) size
                  (sym (
                    ap (λ n. take n ((a ++ b) ++ drop (length a + length b) dst)) (sym size)
                    ∙ take-length (a ++ b) _)))
        ]

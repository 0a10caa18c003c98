-- ===== src/Chaos/CancelStorm/Count.antt =====
-- The window of `CancellationStormDetector` (chaos/src/cancellation_storm.rs) and its counter.
use flowlab.Prelude.{
  sym, ℕ, ◌+◌, ◌-◌, ◌≤◌, ◌<◌, ◌≡◌, ap, ◌∙◌, List, [], ◌∷◌, ◌==◌, if◌then◌else◌, push, length,
  length-push, arith, Bool-cases, inl, inr, u64_mod, add_u64, add_u64_of_lt, subst,
}
use flowlab.Event.{SequencedEvent, event_type_from_u8}
use flowlab.Chaos.{Doubles}
use flowlab.Chaos.Detection.{Stamp, stamp_of, is_counted, count_type}
use flowlab.Chaos.CancelStorm.{
  CancellationStormDetector, is_expired, evict_loop, evict_expired, enter, count_above, above,
  below, sample, entered, storm_process,
}

count_type-push :
    (t : ℕ) (w : List Stamp) (s : Stamp)
    → count_type t (push w s) ≡ count_type t w + (if s.2 == t then 1 else 0)
unfolding count_type
count_type-push t [] s = ground arith
count_type-push t (r ∷ w) s = ground (arith, count_type-push t w s)

count_type-le : (t : ℕ) (w : List Stamp) → count_type t w ≤ length w
unfolding count_type
count_type-le t [] = omega arith
count_type-le t (r ∷ w) = ground (arith, count_type-le t w)

module _ {F : Type 0} (fl : Doubles F) where
  -- The loop keeps the counter true, and leaves no more than there was.
  evict_loop-count :
      (c : CancellationStormDetector F) (seq ts : ℕ) (w : List Stamp) (n : ℕ)
      → n ≡ count_type 0x02 w
      → ((evict_loop fl c seq ts w n).1 ≡ count_type 0x02 (evict_loop fl c seq ts w n).0)
        × (length (evict_loop fl c seq ts w n).0 ≤ length w)
  unfolding evict_loop count_type
  evict_loop-count c seq ts [] n e = (e, omega arith)
  evict_loop-count c seq ts (s ∷ w) n e =
      let rest =
        evict_loop-count c seq ts w (if s.2 == 0x02 then n - 1 else n) (ground (arith, e)) in
      elim (Bool-cases (is_expired fl c seq ts s)) [
        | inl old ↦ rw old (rest.0, omega (arith, rest.1))
        | inr young ↦ rw young (e, omega arith)
      ]

  -- The counter is that of the window, which has at most `k` entries.
  abbrev Counted : CancellationStormDetector F → ℕ → Type 0
  Counted c k = (c.cancels_in_window ≡ count_type 0x02 c.window) × (length c.window ≤ k)

  enter-Counted :
      (c : CancellationStormDetector F) (e : SequencedEvent) (k : ℕ)
      → Counted c k
      → k + 1 < u64_mod
      → Counted (enter fl c e) (k + 1)
  unfolding enter evict_expired
  enter-Counted c e k (n, l) word =
      let w = push c.window (stamp_of e) in
      let kept =
        evict_loop-count _ e.seq e.event.ts w
          (if e.event.event_type == 0x02
            then add_u64 c.cancels_in_window 1
            else c.cancels_in_window)
          (ground (
            arith,
            n,
            count_type-push 0x02 c.window (stamp_of e),
            add_u64_of_lt c.cancels_in_window 1,
            count_type-le 0x02 c.window,
          )) in
      (kept.0, omega (arith, kept.1, length-push c.window (stamp_of e)))

  -- What follows changes neither.
  entered-window :
      (c : CancellationStormDetector F) (e : SequencedEvent)
      → ((entered fl c e).1.window ≡ c.window)
        × ((entered fl c e).1.cancels_in_window ≡ c.cancels_in_window)
  unfolding entered sample above below count_above
  entered-window c e = ground arith

  process-Counted :
      (c : CancellationStormDetector F) (e : SequencedEvent) (k : ℕ)
      → Counted c k
      → k + 1 < u64_mod
      → Counted (storm_process fl c e).1 (k + 1)
  unfolding storm_process
  process-Counted c e k w word =
      let (n, l) = enter-Counted c e k w word in
      let (same_window, same_count) = entered-window (enter fl c e) e in
      elim (Bool-cases (is_counted (event_type_from_u8 e.event.event_type))) [
        | inl counted ↦ rw counted (
          same_count ∙ n ∙ ap (count_type 0x02) (sym same_window),
          subst (λ v. length v ≤ k + 1) (sym same_window) l,
        )
        | inr other ↦ rw other (w.0, omega (arith, w.1))
      ]

  -- the detector after some events
  abbrev pub storm_run :
      CancellationStormDetector F → List SequencedEvent → CancellationStormDetector F
  storm_run c [] = c
  storm_run c (e ∷ es) = storm_run (storm_process fl c e).1 es

  run-Counted :
      (c : CancellationStormDetector F) (es : List SequencedEvent) (k : ℕ)
      → Counted c k
      → k + length es < u64_mod
      → Counted (storm_run c es) (k + length es)
  run-Counted c [] k (n, l) word = (n, omega (arith, l))
  run-Counted c (e ∷ es) k w word =
      let (n, l) =
        run-Counted (storm_process fl c e).1 es (k + 1) (process-Counted c e k w (omega arith))
          (omega arith) in
      (n, omega (arith, l))

  abbrev CountsOf : CancellationStormDetector F → List Stamp → Type 0
  CountsOf c w = (c.cancels_in_window ≡ count_type 0x02 w) × (length w ≤ 0)

  -- After any events, fewer than 2^64, that a detector with an empty window and a counter of 0 is fed,
  -- `cancels_in_window` is the number of cancels in the window.
  pub storm_run-count :
      (c : CancellationStormDetector F) (es : List SequencedEvent)
      → c.window ≡ []
      → c.cancels_in_window ≡ 0
      → length es < u64_mod
      → (storm_run c es).cancels_in_window ≡ count_type 0x02 (storm_run c es).window
  unfolding count_type
  storm_run-count c es empty none_yet word =
      (run-Counted c es 0 (subst (CountsOf c) (sym empty) (none_yet, omega arith)) (omega arith)).0

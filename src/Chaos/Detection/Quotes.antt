-- ===== src/Chaos/Detection/Quotes.antt =====
-- What `QuoteStuffDetector` (chaos/src/detection.rs) looks at, after any events.
use flowlab.Prelude.{
  le→leb, lt→not-leb, append-nil, append_assoc, zero, ℕ, suc, ◌+◌, ◌-◌, ◌≤◌, ◌<◌, ◌≡◌, refl, sym,
  ap, ◌∙◌, max, true, List, [], ◌∷◌, ◌++◌, leb, leb→le, if◌then◌else◌, push, length, length-push,
  length-drop, drop, drop_front, drop-drop, arith, Bool-cases, inl, inr, subst,
}
use flowlab.Event.{SequencedEvent, event_type_from_u8}
use flowlab.Chaos.{Doubles}
use flowlab.Chaos.Detection.{
  Stamp, stamp_of, is_counted, slide, QuoteStuffDetector, new_quote, quote_process, quote_counted,
}

drop_none : (n : ℕ) → drop {A = Stamp} n [] ≡ []
drop_none zero = refl
drop_none (suc n) = refl

zero_leb : (a : ℕ) → leb 0 a ≡ true
zero_leb a = ground arith

-- the events of a list that the detectors count, as they enter a window
unfoldable pub stamps : List SequencedEvent → List Stamp
stamps [] = []
stamps (e ∷ es) =
    let rest = stamps es in
    if is_counted (event_type_from_u8 e.event.event_type) then stamp_of e ∷ rest else rest

-- the last `n` entries
abbrev pub last_n : ℕ → List Stamp → List Stamp
last_n n h = drop (length h - n) h

last_n_full :
    (n : ℕ) (h : List Stamp) (s : Stamp)
    → 1 ≤ n
    → n ≤ length h
    → push (drop 1 (last_n n h)) s ≡ last_n n (push h s)
last_n_full n h s some_room full =
    ap (λ w. push w s) (sym (drop-drop h (length h - n) 1))
    ∙ sym (drop_front (length h - n + 1) h (s ∷ []) (omega arith))
    ∙ ap (λ k. drop k (push h s)) (omega (arith, length-push h s))

last_n_room :
    (n : ℕ) (h : List Stamp) (s : Stamp) → length h < n → push (last_n n h) s ≡ last_n n (push h s)
last_n_room n h s room =
    let none_dropped : length h - n ≡ 0 = omega arith in
    ap (λ k. push (drop k h) s) none_dropped ∙ ap (λ k. drop k (push h s)) still_none
  where
    still_none : 0 ≡ length (push h s) - n
    still_none = omega (arith, length-push h s)

slide_pos :
    (size : ℕ) (h : List Stamp) (s : Stamp)
    → 1 ≤ size
    → slide size (last_n size h) s ≡ last_n size (push h s)
unfolding slide
slide_pos size h s pos =
    let m = length-drop (length h - size) h in
    elim (Bool-cases (leb size (length h))) [
      | inl full ↦
          let long = leb→le size (length h) full in
          rw (le→leb size (length (last_n size h)) (omega (arith, m, long)))
            (last_n_full size h s pos long)
      | inr room ↦
          let short : length h < size = ground (arith, room) in
          rw (lt→not-leb size (length (last_n size h)) (omega (arith, m, short)))
            (last_n_room size h s short)
    ]

max_suc : (size : ℕ) → suc size ≡ max (suc size) 1
max_suc size = omega arith

slide-last_n :
    (size : ℕ) (h : List Stamp) (s : Stamp)
    → slide size (last_n (max size 1) h) s ≡ last_n (max size 1) (push h s)
unfolding slide
slide-last_n zero [] s = refl
slide-last_n zero (x ∷ h) s =
    rw (zero_leb (length (last_n 1 (x ∷ h)))) (last_n_full 1 (x ∷ h) s (omega arith) (omega arith))
slide-last_n (suc size) h s =
    subst (λ n. slide (suc size) (last_n n h) s ≡ last_n n (push h s)) (max_suc size)
      (slide_pos (suc size) h s (omega arith))

module _ {F : Type 0} (fl : Doubles F) where
  -- the detector after some events
  abbrev pub quote_run : QuoteStuffDetector F → List SequencedEvent → QuoteStuffDetector F
  quote_run d [] = d
  quote_run d (e ∷ es) = quote_run (quote_process fl d e).1 es

  -- The window is the end of a history of stamps.
  abbrev Holds : QuoteStuffDetector F → ℕ → List Stamp → Type 0
  Holds d size h = (d.window_size ≡ size) × (d.window ≡ last_n (max size 1) h)

  process-Holds :
      (d : QuoteStuffDetector F) (e : SequencedEvent) (size : ℕ) (h : List Stamp)
      → Holds d size h
      → Holds (quote_process fl d e).1 size (h ++ stamps (e ∷ []))
  unfolding quote_process quote_counted stamps
  process-Holds d e size h (sized, w) =
      elim (Bool-cases (is_counted (event_type_from_u8 e.event.event_type))) [
        | inl counted ↦ rw counted (
          sized,
          ap (λ k. slide k d.window (stamp_of e)) sized
              ∙ ap (λ v. slide size v (stamp_of e)) w
              ∙ slide-last_n size h (stamp_of e),
        )
        | inr other ↦ rw other (sized, w ∙ ap (last_n (max size 1)) (sym (append-nil h)))
      ]

  stamps-cons :
      (e : SequencedEvent) (es : List SequencedEvent)
      → stamps (e ∷ es) ≡ stamps (e ∷ []) ++ stamps es
  unfolding stamps
  stamps-cons e es = ground arith

  run-Holds :
      (d : QuoteStuffDetector F) (es : List SequencedEvent) (size : ℕ) (h : List Stamp)
      → Holds d size h
      → Holds (quote_run d es) size (h ++ stamps es)
  unfolding stamps
  run-Holds d [] size h w = subst (Holds d size) (unfold stamps in sym (append-nil h)) w
  run-Holds d (e ∷ es) size h w =
      subst (Holds (quote_run d (e ∷ es)) size)
        (append_assoc h (stamps (e ∷ [])) (stamps es) ∙ ap (λ l. h ++ l) (sym (stamps-cons e es)))
        (run-Holds (quote_process fl d e).1 es size (h ++ stamps (e ∷ []))
          (process-Holds d e size h w))

  new-Holds : (size : ℕ) (limit : F) → Holds (new_quote fl size limit) size []
  unfolding new_quote
  new-Holds size limit = (refl, sym (drop_none (0 - max size 1)))

  -- After any events the window of a new detector holds the stamps of the last `window_size` adds,
  -- cancels and trades, in order, or of the last one if that size is 0.
  pub quote_run-window :
      (size : ℕ) (limit : F) (es : List SequencedEvent)
      → (quote_run (new_quote fl size limit) es).window ≡ last_n (max size 1) (stamps es)
  quote_run-window size limit es =
      (run-Holds (new_quote fl size limit) es size [] (new-Holds size limit)).1

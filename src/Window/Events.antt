-- ===== src/Window/Events.antt =====
-- The chaos events of the windows are those of the stressed entries.
use flowlab.Prelude.{
  ◌≡◌, refl, ◌∙◌, ap, sym, Option, none, some, List, [], ◌∷◌, ◌++◌, append-nil, append_assoc, leb,
  if◌then◌else◌, push, Bool-cases, inl, inr,
}
use flowlab.Window.{
  rank, StressWindow, Tagged, WindowExtractor, severity_finalize, finish, is_near, stressed,
  extract_step, extract_loop, extract,
}

module _ {C S : Type 0} where
  -- all chaos events of a list of windows
  abbrev pub chaos_in : List (StressWindow C S) → List C
  chaos_in [] = []
  chaos_in (w ∷ ws) = w.chaos_events ++ chaos_in ws

  -- and of the window that is open
  abbrev current_chaos : Option (StressWindow C S) → List C
  current_chaos none = []
  current_chaos (some w) = w.chaos_events

  chaos_in-push :
      (ws : List (StressWindow C S)) (w : StressWindow C S)
      → chaos_in (push ws w) ≡ chaos_in ws ++ w.chaos_events
  chaos_in-push [] w = append-nil w.chaos_events
  chaos_in-push (v ∷ ws) w =
      ap (λ l. v.chaos_events ++ l) (chaos_in-push ws w)
      ∙ sym (append_assoc v.chaos_events (chaos_in ws) w.chaos_events)

module _ {C : Type 0} where
  -- the chaos events of the entries of at least `min_regime`, in their order
  abbrev pub stressed_chaos : WindowExtractor → List (Tagged C) → List C
  stressed_chaos x [] = []
  stressed_chaos x (t ∷ ts) =
      let rest = stressed_chaos x ts in
      if leb (rank x.min_regime) (rank t.regime) then t.chaos ++ rest else rest

module _ {C S : Type 0} (zero : S) (severity_of : List C → S) where
  abbrev total : Option (StressWindow C S) × List (StressWindow C S) → List C
  total s = chaos_in s.1 ++ current_chaos s.0

  finish-chaos :
      (o : Option (StressWindow C S)) (ws : List (StressWindow C S))
      → chaos_in (finish zero severity_of o ws) ≡ chaos_in ws ++ current_chaos o
  unfolding finish severity_finalize
  finish-chaos none ws = sym (append-nil (chaos_in ws))
  finish-chaos (some w) ws = chaos_in-push ws _

  stressed-chaos :
      (x : WindowExtractor) (t : Tagged C) (o : Option (StressWindow C S))
      (ws : List (StressWindow C S))
      → total (stressed zero severity_of x t (o, ws)) ≡ total (o, ws) ++ t.chaos
  unfolding stressed severity_finalize
  stressed-chaos x t none ws = ap (λ l. l ++ t.chaos) (sym (append-nil (chaos_in ws)))
  stressed-chaos x t (some w) ws = elim (Bool-cases (is_near zero severity_of x w t)) [
    | inl near ↦ rw near (sym (append_assoc (chaos_in ws) w.chaos_events t.chaos))
    | inr far ↦ rw far (ap (λ l. l ++ t.chaos) (chaos_in-push ws _))
  ]

  -- what an entry adds
  abbrev added : WindowExtractor → Tagged C → List C
  added x t = if leb (rank x.min_regime) (rank t.regime) then t.chaos else []

  step-chaos :
      (x : WindowExtractor) (t : Tagged C) (o : Option (StressWindow C S))
      (ws : List (StressWindow C S))
      → total (extract_step zero severity_of x t (o, ws)) ≡ total (o, ws) ++ added x t
  unfolding extract_step
  step-chaos x t o ws = elim (Bool-cases (leb (rank x.min_regime) (rank t.regime))) [
    | inl h ↦ rw h (stressed-chaos x t o ws)
    | inr h ↦ rw h (
        append-nil (chaos_in (finish zero severity_of o ws))
        ∙ finish-chaos o ws
        ∙ sym (append-nil (total (o, ws))))
  ]

  added-chaos :
      (x : WindowExtractor) (t : Tagged C) (ts : List (Tagged C))
      → added x t ++ stressed_chaos x ts ≡ stressed_chaos x (t ∷ ts)
  added-chaos x t ts = elim (Bool-cases (leb (rank x.min_regime) (rank t.regime))) [
    | inl h ↦ rw h refl
    | inr h ↦ rw h refl
  ]

  loop-chaos :
      (x : WindowExtractor) (ts : List (Tagged C)) (o : Option (StressWindow C S))
      (ws : List (StressWindow C S))
      → total (extract_loop zero severity_of x ts (o, ws)) ≡ total (o, ws) ++ stressed_chaos x ts
  unfolding extract_loop
  loop-chaos x [] o ws = sym (append-nil (total (o, ws)))
  loop-chaos x (t ∷ ts) o ws =
      let s = extract_step zero severity_of x t (o, ws) in
      loop-chaos x ts s.0 s.1
      ∙ ap (λ l. l ++ stressed_chaos x ts) (step-chaos x t o ws)
      ∙ append_assoc (total (o, ws)) (added x t) (stressed_chaos x ts)
      ∙ ap (λ l. total (o, ws) ++ l) (added-chaos x t ts)

  -- The windows hold the chaos events of the entries of at least `min_regime`, each once and in their
  -- order, however the entries are merged.
  pub extract-chaos :
      (x : WindowExtractor) (tagged : List (Tagged C))
      → chaos_in (extract zero severity_of x tagged) ≡ stressed_chaos x tagged
  unfolding extract
  extract-chaos x tagged =
      let s = extract_loop zero severity_of x tagged (none, []) in
      finish-chaos s.0 s.1 ∙ loop-chaos x tagged none []

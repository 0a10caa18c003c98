-- ===== src/Window/Tests.antt =====
-- The windows of concrete entries: two near ones, a calm one, a later one.
use flowlab.Prelude.{ℕ, ◌≡◌, List, [], ◌∷◌, length}
use flowlab.Window.{Regime, Tagged, WindowExtractor, extract}
use flowlab.Window.Events.{chaos_in, stressed_chaos, extract-chaos}

abbrev extractor : WindowExtractor
extractor = record { min_regime = Regime.volatile; merge_gap = 5 }

abbrev entry : ℕ → Regime → List ℕ → Tagged ℕ
entry seq regime chaos = record { seq = seq; regime = regime; chaos = chaos }

abbrev tagged : List (Tagged ℕ)
tagged =
    entry 10 Regime.volatile (1 ∷ [])
    ∷ entry 12 Regime.crisis (2 ∷ 3 ∷ [])
    ∷ entry 13 Regime.calm (4 ∷ [])
    ∷ entry 30 Regime.aggressive (5 ∷ [])
    ∷ []

extract-chaos_example :
    chaos_in (extract 0 length extractor tagged) ≡ stressed_chaos extractor tagged
extract-chaos_example = extract-chaos 0 length extractor tagged

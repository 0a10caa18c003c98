-- ===== src/Replay/Log.antt =====
-- What a replay does of a whole log: it goes through when the sequence numbers are consecutive, and
-- stops at the first that is not.
use flowlab.Prelude.{
  ℕ, suc, ◌+◌, ◌<◌, ◌≡◌, ◌≢◌, refl, ◌∙◌, ap, Option, none, some, List, [], ◌∷◌, append-nil, sym,
  ◌++◌, map, inl, inr, add_u64, add_u64_of_lt, length, arith, u64_mod,
}
use flowlab.Event.{Event, SequencedEvent}
use flowlab.Hash.{Xxh3}
use flowlab.Reference
use flowlab.Reference.{OrderBook}
use flowlab.Replay.{
  ReplayEngine, ReplayError, process, replay, hash_input, unexpected, advance, result_of,
}

-- `seq` may come after `last`, the number of the event before it if there is one.
abbrev pub Next : Option ℕ → ℕ → Type 0
Next none seq = Unit
Next (some last) seq = (seq ≡ last + 1) × (last + 1 < u64_mod)

-- The sequence numbers are consecutive, from the one after `last`.
abbrev pub Follows : Option ℕ → List SequencedEvent → Type 0
Follows last [] = Unit
Follows last (e ∷ es) = Next last e.seq × Follows (some e.seq) es

-- The hash that the events lead to.
abbrev pub chain : Xxh3 → ℕ → List SequencedEvent → ℕ
chain x h [] = h
chain x h (e ∷ es) = chain x (x.xxh3 (hash_input h e)) es

abbrev pub last_of : Option ℕ → List SequencedEvent → Option ℕ
last_of last [] = last
last_of last (e ∷ es) = last_of (some e.seq) es

abbrev pub events_of : List SequencedEvent → List Event
events_of = map (λ (e : SequencedEvent). e.event)

-- The engine after events that all went through.
abbrev pub after : Xxh3 → List SequencedEvent → ReplayEngine → ReplayEngine
after x es g = record {
  state = record {
    book = Reference.run g.state.book (events_of es);
    last_seq = last_of g.state.last_seq es;
    state_hash = chain x g.state.state_hash es;
  };
  events_processed = g.events_processed + length es;
}

Next-unexpected : (last : Option ℕ) (seq : ℕ) → Next last seq → unexpected last seq ≡ none
unfolding add_u64
Next-unexpected none seq n = refl
Next-unexpected (some last) seq n = ground (arith, n.0, n.1)

-- how a replay goes on, after events that all went through
replay-Follows :
    (x : Xxh3) (es rest : List SequencedEvent) (g : ReplayEngine)
    → Follows g.state.last_seq es
    → g.events_processed + length es < u64_mod
    → replay x (es ++ rest) g ≡ replay x rest (after x es g)
unfolding replay process Reference.run
replay-Follows x [] rest g f room =
    let counted : g.events_processed ≡ g.events_processed + 0 = omega arith in
    ap (λ n. replay x rest (record g { events_processed = n })) counted
replay-Follows x (s ∷ es) rest g f room =
    let counted : add_u64 g.events_processed 1 ≡ g.events_processed + 1 =
      add_u64_of_lt g.events_processed 1 (omega arith) in
    let total : g.events_processed + 1 + length es ≡ g.events_processed + suc (length es) =
      omega arith in
    let g' : ReplayEngine = record {
      state = advance x g.state s;
      events_processed = g.events_processed + 1;
    } in
    rw (replay, process, Next-unexpected g.state.last_seq s.seq f.0, counted)
      (replay-Follows x es rest g' f.1 (omega arith)
        ∙ ap (λ n. replay x rest (record { state = (after x es g').state; events_processed = n }))
            total)

-- A log whose sequence numbers are consecutive is replayed to its end: the book is that of the
-- events, the hash is chained over them, the last number is kept, every event is counted (below
-- 2 ^ 64 in all).
pub replay-whole :
    (x : Xxh3) (es : List SequencedEvent) (g : ReplayEngine)
    → Follows g.state.last_seq es
    → g.events_processed + length es < u64_mod
    → replay x es g ≡ (inr (result_of (after x es g)), after x es g)
unfolding replay
replay-whole x es g f room =
    ap (λ l. replay x l g) (sym (append-nil es)) ∙ replay-Follows x es [] g f room

replay-refused :
    (x : Xxh3) (bad : SequencedEvent) (rest : List SequencedEvent) (g : ReplayEngine) (last : ℕ)
    → g.state.last_seq ≡ some last
    → last + 1 < u64_mod
    → bad.seq ≢ last + 1
    → replay x (bad ∷ rest) g ≡ (inl (ReplayError.gap_at (last + 1) bad.seq g.events_processed), g)
unfolding replay process
replay-refused x bad rest g last at word wrong = rw (replay, process, gap) refl
  where
    counted : add_u64 last 1 ≡ last + 1
    counted = add_u64_of_lt last 1 word

    gap : unexpected g.state.last_seq bad.seq ≡ some (last + 1)
    gap = ap (λ o. unexpected o bad.seq) at ∙ ground (arith, counted)

-- A log is replayed up to the first event whose number is not the next: the error names the number
-- that was expected, the one that came and how many events went through, and the engine stands where
-- those events left it, whatever comes after.
pub replay-gap :
    (x : Xxh3) (es rest : List SequencedEvent) (bad : SequencedEvent) (g : ReplayEngine) (last : ℕ)
    → Follows g.state.last_seq es
    → g.events_processed + length es < u64_mod
    → last_of g.state.last_seq es ≡ some last
    → last + 1 < u64_mod
    → bad.seq ≢ last + 1
    → replay x (es ++ bad ∷ rest) g
      ≡ (inl (ReplayError.gap_at (last + 1) bad.seq (g.events_processed + length es)), after x es g)
replay-gap x es rest bad g last f room at word wrong =
    replay-Follows x es (bad ∷ rest) g f room
    ∙ replay-refused x bad rest (after x es g) last at word wrong

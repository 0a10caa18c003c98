-- ===== src/Replay/Chain.antt =====
-- What the hash of a replay says of the log that was replayed.
use flowlab.Prelude.{
  ℕ, ◌+◌, ◌<◌, ◌≡◌, ◌≢◌, refl, sym, ap, ◌∙◌, ap₂, List, [], ◌∷◌, ◌⊎◌, inl, inr, length, All, map,
  le_fields-injective, bytes-cases, Fit, arith, u64_mod,
}
use flowlab.Event.{Event, SequencedEvent}
use flowlab.Hash.{Xxh3}
use flowlab.Replay.{hash_input, event_fields, hash, ReplayEngine, ReplayError, ReplayResult, replay}
use flowlab.Replay.Log.{chain, Follows, replay-whole}

-- every field fits its width
abbrev pub IsWord : SequencedEvent → Type 0
IsWord e = (e.seq < u64_mod) × Fit (event_fields e.event)

-- the channel is not hashed
abbrev pub hashed : SequencedEvent → ℕ × Event
hashed e = (e.seq, e.event)

input-injective :
    (h k : ℕ) (e f : SequencedEvent)
    → h < u64_mod
    → k < u64_mod
    → IsWord e
    → IsWord f
    → hash_input h e ≡ hash_input k f
    → (h ≡ k) × (hashed e ≡ hashed f)
input-injective h k e f hw kw ew fw eq =
    let fields =
      le_fields-injective ((8, h) ∷ (8, e.seq) ∷ event_fields e.event)
        ((8, k) ∷ (8, f.seq) ∷ event_fields f.event) refl (hw, ew) (kw, fw) eq in
    let state : h ≡ k = cc in
    let seqs : e.seq ≡ f.seq = cc in
    let ts : e.event.ts ≡ f.event.ts = cc in
    let price : e.event.price ≡ f.event.price = cc in
    let qty : e.event.qty ≡ f.event.qty = cc in
    let id : e.event.order_id ≡ f.event.order_id = cc in
    let instrument : e.event.instrument_id ≡ f.event.instrument_id = cc in
    let kind : e.event.event_type ≡ f.event.event_type = cc in
    let side : e.event.side ≡ f.event.side = cc in
    let pad : e.event.pad ≡ f.event.pad = cc in
    (
      state,
      λ i. (
        seqs i,
        record {
          ts = ts i;
          price = price i;
          qty = qty i;
          order_id = id i;
          instrument_id = instrument i;
          event_type = kind i;
          side = side i;
          pad = pad i;
        },
      ),
    )

-- Somewhere in the two replays, from the hashes `h` and `k`, the inputs that are hashed for the two
-- events of one position differ and xxh3 takes them to one value.
abbrev pub Clash : Xxh3 → ℕ → ℕ → List SequencedEvent → List SequencedEvent → Type 0
Clash x h k [] fs = ⊥
Clash x h k (e ∷ es) [] = ⊥
Clash x h k (e ∷ es) (f ∷ fs) =
    ((hash_input h e ≢ hash_input k f) × (x.xxh3 (hash_input h e) ≡ x.xxh3 (hash_input k f)))
    ⊎ Clash x (x.xxh3 (hash_input h e)) (x.xxh3 (hash_input k f)) es fs

chain-injective :
    (x : Xxh3) (es fs : List SequencedEvent) (h k : ℕ)
    → ((bytes : List ℕ) → x.xxh3 bytes < u64_mod)
    → h < u64_mod
    → k < u64_mod
    → All IsWord es
    → All IsWord fs
    → length es ≡ length fs
    → chain x h es ≡ chain x k fs
    → ((h ≡ k) × (map hashed es ≡ map hashed fs)) ⊎ Clash x h k es fs
chain-injective x [] [] h k word hw kw a b l e = inl (e, refl)
chain-injective x [] (f ∷ fs) h k word hw kw a b l e = absurd (omega (arith, l))
chain-injective x (s ∷ es) [] h k word hw kw a b l e = absurd (omega (arith, l))
chain-injective x (s ∷ es) (f ∷ fs) h k word hw kw a b l e =
    elim (chain-injective x es fs _ _ word (word _) (word _) a.1 b.1 (omega (arith, l)) e) [
      | inr later ↦ inr (inr later)
      | inl (same, rest) ↦ elim (bytes-cases (hash_input h s) (hash_input k f)) [
        | inl inputs ↦
            let heads = input-injective h k s f hw kw a.0 b.0 inputs in
            inl (heads.0, ap₂ (λ y ys. y ∷ ys) heads.1 rest)
        | inr differ ↦ inr (inl (differ, same))
      ]
    ]

pub hash_after :
    (x : Xxh3) (es : List SequencedEvent) (g : ReplayEngine)
    → Follows g.state.last_seq es
    → g.events_processed + length es < u64_mod
    → hash (replay x es g).1.state ≡ chain x g.state.state_hash es
hash_after x es g f room =
    ap (λ (r : (ReplayError ⊎ ReplayResult) × ReplayEngine). r.1.state.state_hash)
      (replay-whole x es g f room)

-- Two engines that replayed two logs of as many events and stand at the same hash started from the
-- same hash, and the logs hold the same numbers and events in the same order; or at some position of
-- the logs the two replays hashed different inputs that xxh3 takes to one value. The numbers of each
-- log are consecutive from where its engine stands, it is counted below 2 ^ 64, every field fits its
-- width, and the hashes at the start and those of xxh3 are words of 64 bits.
pub replay-injective :
    (x : Xxh3) (es fs : List SequencedEvent) (g j : ReplayEngine)
    → ((bytes : List ℕ) → x.xxh3 bytes < u64_mod)
    → (Follows g.state.last_seq es × (g.events_processed + length es < u64_mod))
    → (Follows j.state.last_seq fs × (j.events_processed + length fs < u64_mod))
    → ((hash g.state < u64_mod) × All IsWord es)
    → ((hash j.state < u64_mod) × All IsWord fs)
    → length es ≡ length fs
    → hash (replay x es g).1.state ≡ hash (replay x fs j).1.state
    → ((hash g.state ≡ hash j.state) × (map hashed es ≡ map hashed fs))
      ⊎ Clash x (hash g.state) (hash j.state) es fs
replay-injective x es fs g j word goes going words fits l same =
    chain-injective x es fs (hash g.state) (hash j.state) word words.0 fits.0 words.1 fits.1 l
      (sym (hash_after x es g goes.0 goes.1) ∙ same ∙ hash_after x fs j going.0 going.1)

-- ===== src/Chaos/CancelStorm/Spacing.antt =====
-- When `CancellationStormDetector` (chaos/src/cancellation_storm.rs) raises its flags.
use flowlab.Prelude.{
  ℕ, suc, ◌+◌, ◌*◌, ◌≤◌, ◌≡◌, refl, ap, ◌∙◌, not, Option, none, some, List, [], ◌∷◌, ◌++◌, ltb, leb,
  ◌&&◌, length, arith, Bool-cases, inl, inr, add_u64, saturating_add,
}
use flowlab.Event.{SequencedEvent, event_type_from_u8}
use flowlab.Chaos.{ChaosEvent, Doubles}
use flowlab.Chaos.Detection.{is_counted}
use flowlab.Chaos.Refractory.{flags_of, Spaced, Rests, flags, flags-Spaced}
use flowlab.Chaos.CancelStorm.{
  threshold, CancellationStormDetector, evict_expired, enter, count_above, above, below, sample,
  entered, storm_process, emit_flag,
}

module _ {F : Type 0} (fl : Doubles F) where
  -- what a step does, with or without a flag, to what the guards read
  record Quiet (c d : CancellationStormDetector F) : Type 0 where
    same_until : d.refractory_until ≡ c.refractory_until
    one_more : d.consecutive_above ≤ c.consecutive_above + 1

  record Raised (c d : CancellationStormDetector F) (seq : ℕ) (f : ChaosEvent F) : Type 0 where
    at_event : f.end_seq ≡ seq
    not_before : c.refractory_until ≤ seq
    next_until : d.refractory_until ≡ saturating_add seq c.cooldown_seq
    sustained : c.min_consecutive ≤ c.consecutive_above + 1
    used_up : d.consecutive_above ≡ 0

  record Settings (c d : CancellationStormDetector F) : Type 0 where
    same_cooldown : d.cooldown_seq ≡ c.cooldown_seq
    same_consecutive : d.min_consecutive ≡ c.min_consecutive

  abbrev Guarded :
      CancellationStormDetector F → ℕ → Option (ChaosEvent F) × CancellationStormDetector F → Type 0
  Guarded c seq (none, d) = Settings c d × Quiet c d
  Guarded c seq (some f, d) = Settings c d × Raised c d seq f

  above-Guarded :
      (c : CancellationStormDetector F) (e : SequencedEvent) (rate : F)
      → Guarded c e.seq (above fl c e rate)
  unfolding above count_above emit_flag add_u64
  above-Guarded c e rate =
      elim (Bool-cases (
        leb c.min_consecutive (add_u64 c.consecutive_above 1)
        && not (ltb e.seq c.refractory_until))) [
          | inl fire ↦ rw fire (
            record { same_cooldown = refl; same_consecutive = refl },
            record {
              at_event = refl;
              not_before = ground (arith, fire);
              next_until = refl;
              sustained = ground (arith, fire);
              used_up = refl;
            },
          )
          | inr wait ↦ rw wait (
            record { same_cooldown = refl; same_consecutive = refl },
            record { same_until = refl; one_more = omega arith },
          )
        ]

  -- A detector with the same guards stands for another.
  record SameGuards (b c : CancellationStormDetector F) : Type 0 where
    until_eq : b.refractory_until ≡ c.refractory_until
    above_eq : b.consecutive_above ≡ c.consecutive_above
    cooldown_eq : b.cooldown_seq ≡ c.cooldown_seq
    consecutive_eq : b.min_consecutive ≡ c.min_consecutive

  Guarded-same :
      (b c : CancellationStormDetector F) (seq : ℕ)
      (r : Option (ChaosEvent F) × CancellationStormDetector F)
      → SameGuards b c
      → Guarded b seq r
      → Guarded c seq r
  Guarded-same b c seq (none, d) s (t, q) = (
    record {
      same_cooldown = t.same_cooldown ∙ s.cooldown_eq;
      same_consecutive = t.same_consecutive ∙ s.consecutive_eq;
    },
    record {
      same_until = q.same_until ∙ s.until_eq;
      one_more = let l = q.one_more in let u = s.above_eq in omega (arith, l, u);
    },
  )
  Guarded-same b c seq (some f, d) s (t, r) =
      let u = s.until_eq in
      let a = s.above_eq in
      let m = s.consecutive_eq in
      let n = r.not_before in
      let k = r.sustained in
      (
        record {
          same_cooldown = t.same_cooldown ∙ s.cooldown_eq;
          same_consecutive = t.same_consecutive ∙ s.consecutive_eq;
        },
        record {
          at_event = r.at_event;
          not_before = omega (arith, u, n);
          next_until = r.next_until ∙ ap (saturating_add seq) s.cooldown_eq;
          sustained = omega (arith, m, k, a);
          used_up = r.used_up;
        },
      )

  below-Guarded :
      (c : CancellationStormDetector F) (e : SequencedEvent) (rate : F)
      → Guarded c e.seq (none, below fl c e rate)
  unfolding below
  below-Guarded c e rate = (
    record { same_cooldown = refl; same_consecutive = refl },
    record { same_until = refl; one_more = omega arith },
  )

  still-Guarded : (c : CancellationStormDetector F) (seq : ℕ) → Guarded c seq (none, c)
  still-Guarded c seq = (
    record { same_cooldown = refl; same_consecutive = refl },
    record { same_until = refl; one_more = omega arith },
  )

  sample-Guarded :
      (c : CancellationStormDetector F) (e : SequencedEvent) (rate : F)
      → Guarded c e.seq (sample fl c e rate)
  unfolding sample
  sample-Guarded c e rate = elim (Bool-cases (leb c.warmup_samples c.welford.n)) [
    | inl warm ↦ elim (Bool-cases (fl.gt rate (threshold fl c))) [
      | inl high ↦ rw (warm, high) (above-Guarded c e rate)
      | inr low ↦ rw (warm, low) (below-Guarded c e rate)
    ]
    | inr cold ↦ rw cold (
      record { same_cooldown = refl; same_consecutive = refl },
      record { same_until = refl; one_more = omega arith },
    )
  ]

  entered-Guarded :
      (c : CancellationStormDetector F) (e : SequencedEvent) → Guarded c e.seq (entered fl c e)
  unfolding entered
  entered-Guarded c e = elim (Bool-cases (ltb (length c.window) c.min_window)) [
    | inl short ↦ rw short (still-Guarded c e.seq)
    | inr long ↦
        let rate = fl.div (fl.from_word c.cancels_in_window) (fl.from_word (length c.window)) in
        let b = record c { last_rate = rate } in
        let same : SameGuards b c = record {
          until_eq = refl;
          above_eq = refl;
          cooldown_eq = refl;
          consecutive_eq = refl;
        } in
        rw long (Guarded-same b c e.seq (sample fl b e rate) same (sample-Guarded b e rate))
  ]

  enter-SameGuards :
      (c : CancellationStormDetector F) (e : SequencedEvent) → SameGuards (enter fl c e) c
  unfolding enter evict_expired
  enter-SameGuards c e = record {
    until_eq = refl;
    above_eq = refl;
    cooldown_eq = refl;
    consecutive_eq = refl;
  }

  process-Guarded :
      (c : CancellationStormDetector F) (e : SequencedEvent)
      → Guarded c e.seq (storm_process fl c e)
  unfolding storm_process
  process-Guarded c e = elim (Bool-cases (is_counted (event_type_from_u8 e.event.event_type))) [
    | inl counted ↦ rw counted (
        Guarded-same (enter fl c e) c e.seq (entered fl (enter fl c e) e) (enter-SameGuards c e)
          (entered-Guarded (enter fl c e) e))
    | inr other ↦ rw other (still-Guarded c e.seq)
  ]

  -- the flags of some events, in order
  abbrev pub storm_flags : CancellationStormDetector F → List SequencedEvent → List (ChaosEvent F)
  storm_flags = flags (storm_process fl) (λ c. c.refractory_until) (λ c. c.cooldown_seq)

  Guarded-Rests :
      (c : CancellationStormDetector F) (seq : ℕ)
      (r : Option (ChaosEvent F) × CancellationStormDetector F)
      → Guarded c seq r
      → Rests (storm_process fl) (λ d. d.refractory_until) (λ d. d.cooldown_seq) c seq r
  Guarded-Rests c seq (none, d) (t, q) = (t.same_cooldown, q.same_until)
  Guarded-Rests c seq (some f, d) (t, r) = (t.same_cooldown, r.next_until, r.not_before, r.at_event)

  -- Flags keep their distance: over any events, the first ends no earlier than the refractory period
  -- that is running, and each later one at least `cooldown_seq` sequence numbers (saturated) after
  -- the flag before it.
  pub storm_flags-Spaced :
      (c : CancellationStormDetector F) (es : List SequencedEvent)
      → Spaced c.cooldown_seq c.refractory_until (storm_flags c es)
  storm_flags-Spaced =
      flags-Spaced (storm_process fl) (λ c. c.refractory_until) (λ c. c.cooldown_seq)
        (λ c e. Guarded-Rests c e.seq (storm_process fl c e) (process-Guarded c e))

  flags_used :
      (c : CancellationStormDetector F) (seq n : ℕ)
      (r : Option (ChaosEvent F) × CancellationStormDetector F) (fs : List (ChaosEvent F))
      → Guarded c seq r
      → length fs * r.1.min_consecutive ≤ r.1.consecutive_above + n
      → length (flags_of r.0 ++ fs) * c.min_consecutive ≤ c.consecutive_above + suc n
  flags_used c seq n (none, d) fs (t, q) h =
      let m = t.same_consecutive in
      let o = q.one_more in
      let h' : length fs * c.min_consecutive ≤ d.consecutive_above + n = rw m at h in
      omega (arith, o, h')
  flags_used c seq n (some f, d) fs (t, r) h =
      let m = t.same_consecutive in
      let k = r.sustained in
      let z = r.used_up in
      let h' : length fs * c.min_consecutive ≤ d.consecutive_above + n = rw m at h in
      grind (arith, k, z, h')

  -- A flag takes `min_consecutive` events: over any events, the flags times that number are at most
  -- the events and the samples above the threshold that were counted before.
  pub storm_flags-bound :
      (c : CancellationStormDetector F) (es : List SequencedEvent)
      → length (storm_flags c es) * c.min_consecutive ≤ c.consecutive_above + length es
  storm_flags-bound c [] = omega arith
  storm_flags-bound c (e ∷ es) =
      flags_used c e.seq (length es) (storm_process fl c e)
        (storm_flags (storm_process fl c e).1 es) (process-Guarded c e)
        (storm_flags-bound (storm_process fl c e).1 es)

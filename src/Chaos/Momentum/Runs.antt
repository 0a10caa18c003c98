-- ===== src/Chaos/Momentum/Runs.antt =====
-- When `MomentumIgnitionDetector` (chaos/src/momentum_ignition.rs) raises its flags.
use flowlab.Prelude.{
  push, ℕ, ◌≤◌, ◌≡◌, refl, ap, ◌∙◌, Option, none, some, List, [], ◌∷◌, ◌++◌, All, ltb, arith,
  Bool-cases, inl, inr, subst, saturating_add,
}
use flowlab.Event.{Event, EventType, SequencedEvent, event_type_from_u8}
use flowlab.Tracker
use flowlab.Tracker.{ResolvedTrade, AggressorSide}
use flowlab.Chaos.{ChaosEvent, Doubles}
use flowlab.Chaos.Refractory.{Spaced, Rests, flags, flags_of, flags-Spaced}
use flowlab.Chaos.MiniBook.{midprice}
use flowlab.Chaos.Momentum.{
  triggers, evaluate, momentum_flag, sampled, with_mid, momentum_event, momentum_process,
}
use flowlab.Chaos.Momentum.State.{
  MomentumIgnitionDetector, MidSample, Dir, count_aggressor, apply_trade, apply_event, is_change,
  evicted, evict_expired, evict_mids, before_last, run_step, update_run,
}

-- the fields that the guards read and no part of a step but the flag changes
abbrev Guards : MomentumIgnitionDetector → MomentumIgnitionDetector → Type 0
Guards c d =
    (d.cooldown_seq ≡ c.cooldown_seq)
    × (d.refractory_until ≡ c.refractory_until)
    × (d.min_trades ≡ c.min_trades)

apply_trade-Guards :
    (d : MomentumIgnitionDetector) (o : Option ResolvedTrade) → Guards d (apply_trade d o)
unfolding apply_trade count_aggressor
apply_trade-Guards d none = (refl, refl, refl)
apply_trade-Guards d (some trade) = ground arith

apply_event-Guards :
    (d : MomentumIgnitionDetector) (e : Event) (t : EventType) → Guards d (apply_event d e t)
unfolding apply_event
apply_event-Guards d e EventType.trade =
    apply_trade-Guards (record d { order_tracker = (Tracker.on_trade d.order_tracker e).1 })
      (Tracker.on_trade d.order_tracker e).0
apply_event-Guards d e t = (refl, refl, refl)

evicted-Guards : (d : MomentumIgnitionDetector) (w : List MidSample) → Guards d (evicted d w)
unfolding evicted
evicted-Guards d [] = (refl, refl, refl)
evicted-Guards d (s ∷ w) = (refl, refl, refl)

update_run-Guards :
    (d : MomentumIgnitionDetector) (mid seq ts : ℕ) (o : Option MidSample)
    → Guards d (update_run d mid seq ts o)
unfolding update_run run_step
update_run-Guards d mid seq ts none = (refl, refl, refl)
update_run-Guards d mid seq ts (some prev) = ground arith

Guards-trans : (b c d : MomentumIgnitionDetector) → Guards b c → Guards c d → Guards b d
Guards-trans b c d (p, q, r) (p', q', r') = (p' ∙ p, q' ∙ q, r' ∙ r)

sampled-Guards :
    (d : MomentumIgnitionDetector) (e : SequencedEvent) (mid : ℕ) → Guards d (sampled d e mid)
unfolding sampled evict_expired
sampled-Guards d e mid = elim (Bool-cases (is_change d.mids mid)) [
  | inl change ↦
      let b = record d {
        mids = push d.mids (record { seq = e.seq; ts = e.event.ts; mid = mid });
      } in
      let c = evicted b (evict_mids b e.seq e.event.ts b.mids) in
      rw change (
        Guards-trans b c (update_run c mid e.seq e.event.ts (before_last c.mids))
          (evicted-Guards b (evict_mids b e.seq e.event.ts b.mids))
          (update_run-Guards c mid e.seq e.event.ts (before_last c.mids)))
  | inr flat ↦ rw flat (evicted-Guards d (evict_mids d e.seq e.event.ts d.mids))
]

module _ {F : Type 0} (fl : Doubles F) where
  -- what a step reports and leaves
  abbrev Outcome :
      MomentumIgnitionDetector → ℕ → Option (ChaosEvent F) × MomentumIgnitionDetector → Type 0
  Outcome c seq (none, d) = Guards c d
  Outcome c seq (some f, d) =
      (d.cooldown_seq ≡ c.cooldown_seq)
      × (d.refractory_until ≡ saturating_add seq c.cooldown_seq)
      × (c.refractory_until ≤ seq)
      × (f.end_seq ≡ seq)
      × (d.min_trades ≡ c.min_trades)
      × (c.min_trades ≤ f.features.event_count)

  evaluate-Outcome :
      (c d : MomentumIgnitionDetector) (e : SequencedEvent) (mid : ℕ) (o : Option Dir)
      → Guards c d
      → c.refractory_until ≤ e.seq
      → Outcome c e.seq (evaluate fl d e mid o)
  unfolding evaluate triggers momentum_flag
  evaluate-Outcome c d e mid none g over = g
  evaluate-Outcome c d e mid (some dir) (p, q, r) over = elim (Bool-cases (triggers d mid dir)) [
    | inl fire ↦ rw fire (p, ap (saturating_add e.seq) p, over, refl, r, ground (arith, fire, r))
    | inr wait ↦ rw wait (p, q, r)
  ]

  with_mid-Outcome :
      (c d : MomentumIgnitionDetector) (e : SequencedEvent) (o : Option ℕ)
      → Guards c d
      → Outcome c e.seq (with_mid fl d e o)
  unfolding with_mid
  with_mid-Outcome c d e none g = g
  with_mid-Outcome c d e (some mid) g =
      let h = Guards-trans c d (sampled d e mid) g (sampled-Guards d e mid) in
      elim (Bool-cases (ltb e.seq d.refractory_until)) [
        | inl resting ↦ rw resting h
        | inr over ↦
            let until = g.1 in
            rw over (
              evaluate-Outcome c (sampled d e mid) e mid (sampled d e mid).run_dir h
                (ground (arith, over, until)))
      ]

  event-Outcome :
      (c : MomentumIgnitionDetector) (e : SequencedEvent) (o : Option EventType)
      → Outcome c e.seq (momentum_event fl c e o)
  unfolding momentum_event
  event-Outcome c e (some EventType.book_snapshot) = (refl, refl, refl)
  event-Outcome c e none = (refl, refl, refl)
  event-Outcome c e (some t) =
      with_mid-Outcome c (apply_event c e.event t) e (midprice (apply_event c e.event t).book)
        (apply_event-Guards c e.event t)

  process-Outcome :
      (c : MomentumIgnitionDetector) (e : SequencedEvent)
      → Outcome c e.seq (momentum_process fl c e)
  unfolding momentum_process
  process-Outcome c e = event-Outcome c e (event_type_from_u8 e.event.event_type)

  Outcome-Rests :
      (c : MomentumIgnitionDetector) (seq : ℕ)
      (r : Option (ChaosEvent F) × MomentumIgnitionDetector)
      → Outcome c seq r
      → Rests (momentum_process fl) (λ d. d.refractory_until) (λ d. d.cooldown_seq) c seq r
  Outcome-Rests c seq (none, d) (p, q, r) = (p, q)
  Outcome-Rests c seq (some f, d) (p, q, r, s, t, u) = (p, q, r, s)

  -- the flags of some events, in order
  abbrev pub momentum_flags : MomentumIgnitionDetector → List SequencedEvent → List (ChaosEvent F)
  momentum_flags = flags (momentum_process fl) (λ c. c.refractory_until) (λ c. c.cooldown_seq)

  -- enough trades for the gate
  abbrev pub Traded : ℕ → ChaosEvent F → Type 0
  Traded min_trades f = min_trades ≤ f.features.event_count

  step-Traded :
      (c : MomentumIgnitionDetector) (seq : ℕ)
      (r : Option (ChaosEvent F) × MomentumIgnitionDetector) (fs : List (ChaosEvent F))
      → Outcome c seq r
      → All (Traded r.1.min_trades) fs
      → All (Traded c.min_trades) (flags_of r.0 ++ fs)
  step-Traded c seq (none, d) fs (p, q, r) a = subst (λ n. All (Traded n) fs) r a
  step-Traded c seq (some f, d) fs (p, q, r, s, t, u) a = (u, subst (λ n. All (Traded n) fs) t a)

  flags-Traded :
      (c : MomentumIgnitionDetector) (es : List SequencedEvent)
      → All (Traded c.min_trades) (momentum_flags c es)
  flags-Traded c [] = tt
  flags-Traded c (e ∷ es) =
      step-Traded c e.seq (momentum_process fl c e) (momentum_flags (momentum_process fl c e).1 es)
        (process-Outcome c e) (flags-Traded (momentum_process fl c e).1 es)

  -- Over any events, the flags keep their distance: the first ends no earlier than the refractory
  -- period that is running, and each later one at least `cooldown_seq` sequence numbers (saturated)
  -- after the flag before it; and every flag reports at least `min_trades` trades.
  pub momentum_flags-Spaced :
      (c : MomentumIgnitionDetector) (es : List SequencedEvent)
      → Spaced c.cooldown_seq c.refractory_until (momentum_flags c es)
        × All (Traded c.min_trades) (momentum_flags c es)
  momentum_flags-Spaced c es = (
    flags-Spaced (momentum_process fl) (λ c. c.refractory_until) (λ c. c.cooldown_seq)
        (λ c e. Outcome-Rests c e.seq (momentum_process fl c e) (process-Outcome c e)) c es,
    flags-Traded c es,
  )

-- ===== src/Breaker/Latch.antt =====
-- The halt of the breaker: it stays until it is reset and it keeps its first reason.
use flowlab.Prelude.{
  ℕ, ◌≡◌, refl, ◌∙◌, ap, some, List, [], ◌∷◌, Bool-cases, Option-cases, inl, inr, leb, length, push,
}
use flowlab.Breaker.{
  HaltReason, Decision, Intent, Fill, Floats, CircuitBreaker, latch, manual_halt, record_fill,
  log_gap, record_gap, check, retain_recent,
}

-- The calls of a trading session, each with its clock. `reset` and `start_of_day` end the session.
pub data Call : Type 0 where
  checked : Intent → ℕ → Call
  filled : Fill → Call
  gapped : ℕ → Call
  halted_by_hand : Call

module _ {F : Type 0} (fl : Floats F) where
  unfoldable pub call : CircuitBreaker F → Call → CircuitBreaker F
  call b (checked intent now) = (check fl b intent now).1
  call b (filled fill) = record_fill b fill
  call b (gapped now) = record_gap b now
  call b halted_by_hand = manual_halt b

  unfoldable pub session : CircuitBreaker F → List Call → CircuitBreaker F
  session b [] = b
  session b (c ∷ cs) = session (call b c) cs

module _ {F : Type 0} where
  latch-halted :
      (b : CircuitBreaker F) (r s : HaltReason)
      → b.reason ≡ some r
      → latch b s ≡ (Decision.block r, b)
  unfolding latch
  latch-halted b r s e = simp (latch, e) refl

  log_gap-reason :
      (b : CircuitBreaker F) (now threshold : ℕ) (r : HaltReason)
      → b.reason ≡ some r
      → (log_gap b now threshold).reason ≡ some r
  unfolding log_gap
  log_gap-reason b now threshold r e =
      let log = push (retain_recent now b.cfg.gap_window b.gap_log) now in
      elim (Bool-cases (leb threshold (length log))) [
        | inl many ↦ rw (many, latch-halted (record b { gap_log = log }) r HaltReason.feed_gap e) e
        | inr few ↦ rw few e
      ]

  record_gap-reason :
      (b : CircuitBreaker F) (now : ℕ) (r : HaltReason)
      → b.reason ≡ some r
      → (record_gap b now).reason ≡ some r
  unfolding record_gap
  record_gap-reason b now r e = elim (Option-cases b.cfg.gap_threshold) [
    | inl off ↦ rw (record_gap, off) e
    | inr (threshold, on) ↦ rw (record_gap, on) (log_gap-reason b now threshold r e)
  ]

module _ {F : Type 0} (fl : Floats F) where
  check-halted :
      (b : CircuitBreaker F) (r : HaltReason) (intent : Intent) (now : ℕ)
      → b.reason ≡ some r
      → check fl b intent now ≡ (Decision.block r, b)
  unfolding check
  check-halted b r intent now e = simp (check, e) refl

  call-reason :
      (b : CircuitBreaker F) (r : HaltReason) (c : Call)
      → b.reason ≡ some r
      → (call fl b c).reason ≡ some r
  unfolding call record_fill manual_halt
  call-reason b r (checked intent now) e =
      ap (λ (d : Decision × CircuitBreaker F). d.1.reason) (check-halted b r intent now e) ∙ e
  call-reason b r (filled fill) e = e
  call-reason b r (gapped now) e = record_gap-reason b now r e
  call-reason b r halted_by_hand e =
      ap (λ (d : Decision × CircuitBreaker F). d.1.reason) (latch-halted b r HaltReason.manual e)
      ∙ e

  session-reason :
      (b : CircuitBreaker F) (r : HaltReason) (cs : List Call)
      → b.reason ≡ some r
      → (session fl b cs).reason ≡ some r
  unfolding session
  session-reason b r [] e = e
  session-reason b r (c ∷ cs) e = session-reason (call fl b c) r cs (call-reason b r c e)

  -- Once halted, the breaker blocks every order for the reason it was first halted for, whatever
  -- checks, fills, gaps and further halts come before it is reset, and an order that it blocks
  -- changes nothing.
  pub session-blocked :
      (b : CircuitBreaker F) (r : HaltReason) (cs : List Call) (intent : Intent) (now : ℕ)
      → b.reason ≡ some r
      → check fl (session fl b cs) intent now ≡ (Decision.block r, session fl b cs)
  session-blocked b r cs intent now e =
      check-halted (session fl b cs) r intent now (session-reason b r cs e)

-- ===== src/Chaos/CancelStorm.antt =====
-- `Welford` and `CancellationStormDetector` of chaos/src/cancellation_storm.rs.
pub mod Count
pub mod Spacing
use flowlab.Prelude.{
  ℕ, ◌-◌, Bool, true, false, not, Option, none, some, List, [], ◌∷◌, ltb, leb, ◌==◌, ◌&&◌, ◌||◌,
  if◌then◌else◌, push, length, add_u64, saturating_add,
}
use flowlab.Event.{EventType, SequencedEvent, event_type_from_u8}
use flowlab.Chaos.{ChaosKind, ChaosFeatures, ChaosEvent, Doubles}
use flowlab.Chaos.Detection.{Stamp, stamp_of, is_counted}

pub record Welford (F : Type 0) : Type 0 where
  pub n : ℕ
  pub mean : F
  pub m2 : F

pub record CancellationStormDetector (F : Type 0) : Type 0 where
  pub window : List Stamp
  pub seq_window : ℕ
  pub time_window_ns : ℕ
  pub min_window : ℕ
  pub warmup_samples : ℕ
  pub sigma_floor : F
  pub k_sigma : F
  pub min_consecutive : ℕ
  pub cooldown_seq : ℕ
  pub welford : Welford F
  pub consecutive_above : ℕ
  pub refractory_until : ℕ
  pub burst_start_seq : ℕ
  pub burst_start_ts : ℕ
  pub last_rate : F
  pub cancels_in_window : ℕ

module _ {F : Type 0} (fl : Doubles F) where
  unfoldable pub welford_update : Welford F → F → Welford F
  welford_update w x =
      let n = saturating_add w.n 1 in
      let delta = fl.sub x w.mean in
      let mean = fl.add w.mean (fl.div delta (fl.from_word n)) in
      record { n = n; mean = mean; m2 = fl.add w.m2 (fl.mul delta (fl.sub x mean)) }

  unfoldable pub stddev : Welford F → F
  stddev w = if ltb w.n 2 then fl.from_word 0 else fl.sqrt (fl.div w.m2 (fl.from_word (w.n - 1)))

  -- `CancellationStormDetector::new`
  unfoldable pub new_storm : ℕ → ℕ → ℕ → ℕ → F → F → ℕ → ℕ → CancellationStormDetector F
  new_storm seq_window time_window_ns min_window warmup sigma_floor k_sigma min_consecutive
        cooldown =
      record {
        window = [];
        seq_window = seq_window;
        time_window_ns = time_window_ns;
        min_window = min_window;
        warmup_samples = warmup;
        sigma_floor = sigma_floor;
        k_sigma = k_sigma;
        min_consecutive = min_consecutive;
        cooldown_seq = cooldown;
        welford = record { n = 0; mean = fl.from_word 0; m2 = fl.from_word 0 };
        consecutive_above = 0;
        refractory_until = 0;
        burst_start_seq = 0;
        burst_start_ts = 0;
        last_rate = fl.from_word 0;
        cancels_in_window = 0;
      }

  unfoldable pub threshold : CancellationStormDetector F → F
  threshold c = fl.add c.welford.mean (fl.mul c.k_sigma (fl.max (stddev c.welford) c.sigma_floor))

  -- an entry outside of either window that is on
  unfoldable pub is_expired : CancellationStormDetector F → ℕ → ℕ → Stamp → Bool
  is_expired c cur_seq cur_ts s =
      ltb 0 c.seq_window && ltb c.seq_window (cur_seq - s.0)
      || ltb 0 c.time_window_ns && ltb c.time_window_ns (cur_ts - s.1)

  -- the loop of `evict_expired` on the window and `cancels_in_window`
  unfoldable pub evict_loop : CancellationStormDetector F → ℕ → ℕ → List Stamp → ℕ → List Stamp × ℕ
  evict_loop c cur_seq cur_ts [] cancels = ([], cancels)
  evict_loop c cur_seq cur_ts (s ∷ w) cancels =
      let rest = evict_loop c cur_seq cur_ts w (if s.2 == 0x02 then cancels - 1 else cancels) in
      if is_expired c cur_seq cur_ts s then rest else (s ∷ w, cancels)

  unfoldable pub evict_expired : CancellationStormDetector F → ℕ → ℕ → CancellationStormDetector F
  evict_expired c cur_seq cur_ts =
      let (w, cancels) = evict_loop c cur_seq cur_ts c.window c.cancels_in_window in
      record c { window = w; cancels_in_window = cancels }

  unfoldable pub emit_flag : CancellationStormDetector F → ℕ → ℕ → F → ChaosEvent F
  emit_flag c end_seq end_ts rate =
      let sigma = fl.max (stddev c.welford) c.sigma_floor in
      let z = fl.max (fl.div (fl.sub rate c.welford.mean) sigma) (fl.from_word 0) in
      record {
        kind = ChaosKind.cancellation_storm;
        start_seq = c.burst_start_seq;
        end_seq = end_seq;
        start_ts_ns = c.burst_start_ts;
        end_ts_ns = end_ts;
        severity =
            fl.clamp (fl.div z (fl.add z (fl.from_word 3))) (fl.from_word 0) (fl.from_word 1);
        initiator = none;
        features = record {
          event_count = length c.window;
          duration_ns = end_ts - c.burst_start_ts;
          cancel_trade_ratio = fl.div rate (fl.max (fl.sub (fl.from_word 1) rate) fl.epsilon);
          price_displacement = 0;
          depth_removed = 0;
        };
      }

  -- the event in the window, and the expired ones out of it
  unfoldable pub enter : CancellationStormDetector F → SequencedEvent → CancellationStormDetector F
  enter c e =
      let n = c.cancels_in_window in
      evict_expired
        (record c {
          window = push c.window (stamp_of e);
          cancels_in_window = if e.event.event_type == 0x02 then add_u64 n 1 else n;
        })
        e.seq e.event.ts

  -- the sample that begins a run above the threshold, or goes on with one
  unfoldable pub count_above :
      CancellationStormDetector F → SequencedEvent → CancellationStormDetector F
  count_above c e = record c {
    burst_start_seq = if c.consecutive_above == 0 then e.seq else c.burst_start_seq;
    burst_start_ts = if c.consecutive_above == 0 then e.event.ts else c.burst_start_ts;
    consecutive_above = add_u64 c.consecutive_above 1;
  }

  abbrev pub in_refractory : CancellationStormDetector F → SequencedEvent → Bool
  in_refractory c e = ltb e.seq c.refractory_until

  -- a sample above the threshold
  unfoldable pub above :
      CancellationStormDetector F
      → SequencedEvent
      → F
      → Option (ChaosEvent F) × CancellationStormDetector F
  above c e rate =
      let d = count_above c e in
      if leb d.min_consecutive d.consecutive_above && not (in_refractory c e)
      then (
        some (emit_flag d e.seq e.event.ts rate),
        record d { refractory_until = saturating_add e.seq d.cooldown_seq; consecutive_above = 0 },
      )
      else (none, d)

  -- a sample that is not
  unfoldable pub below :
      CancellationStormDetector F → SequencedEvent → F → CancellationStormDetector F
  below c e rate = record c {
    consecutive_above = 0;
    welford = if in_refractory c e then c.welford else welford_update c.welford rate;
  }

  -- the sample of a window that is long enough
  unfoldable pub sample :
      CancellationStormDetector F
      → SequencedEvent
      → F
      → Option (ChaosEvent F) × CancellationStormDetector F
  sample c e rate =
      if leb c.warmup_samples c.welford.n
      then if fl.gt rate (threshold c) then above c e rate else (none, below c e rate)
      else (none, record c { welford = welford_update c.welford rate })

  -- the rest of `process`, once the event is in the window
  unfoldable pub entered :
      CancellationStormDetector F
      → SequencedEvent
      → Option (ChaosEvent F) × CancellationStormDetector F
  entered c e =
      if ltb (length c.window) c.min_window
      then (none, c)
      else let rate = fl.div (fl.from_word c.cancels_in_window) (fl.from_word (length c.window)) in
        sample (record c { last_rate = rate }) e rate

  -- `CancellationStormDetector::process`
  unfoldable pub storm_process :
      CancellationStormDetector F
      → SequencedEvent
      → Option (ChaosEvent F) × CancellationStormDetector F
  storm_process c e =
      if is_counted (event_type_from_u8 e.event.event_type)
      then entered (enter c e) e
      else (none, c)

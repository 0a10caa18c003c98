-- ===== src/Chaos/Clustering.antt =====
-- `ChaosClusterer` and `ChaosCluster` of chaos/src/clustering.rs: flags in the order of their first
-- sequence number, merged into episodes.
pub mod Episodes
pub mod Partition
pub mod Maximal
use flowlab.Prelude.{
  ℕ, Bool, true, false, Option, none, some, List, [], ◌∷◌, ltb, leb, ◌==◌, ◌&&◌, ◌||◌,
  if◌then◌else◌, max, push, add_u64, saturating_add, sort_by_key,
}
use flowlab.Chaos.{ChaosKind, ChaosEvent, Doubles, same_kind}

pub record ChaosClusterer : Type 0 where
  pub max_gap : ℕ
  pub max_time_gap_ns : ℕ

pub record ChaosCluster (F : Type 0) : Type 0 where
  pub start_seq : ℕ
  pub end_seq : ℕ
  pub start_ts_ns : ℕ
  pub end_ts_ns : ℕ
  pub events : List (ChaosEvent F)
  pub peak_severity : F
  pub mean_severity : F
  pub composite_severity : F
  pub count : ℕ
  pub dominant_kind : ChaosKind
  pub initiator : Option ℕ
  pub sum_severity : F

-- `ChaosClusterer::with_windows`; a window of 0 is off.
unfoldable pub with_windows : ℕ → ℕ → ChaosClusterer
with_windows max_gap max_time_gap_ns = record {
  max_gap = max_gap;
  max_time_gap_ns = max_time_gap_ns;
}

-- `ChaosClusterer::new`
unfoldable pub new : ℕ → ChaosClusterer
new max_gap = record { max_gap = max_gap; max_time_gap_ns = 0 }

-- `(Some(x), Some(y)) => x == y, _ => false`
unfoldable pub same_initiator : Option ℕ → Option ℕ → Bool
same_initiator (some x) (some y) = x == y
same_initiator _ _ = false

-- the `match` on the two kinds
unfoldable pub kinds_merge : ChaosKind → Option ℕ → ChaosKind → Option ℕ → Bool
kinds_merge ChaosKind.flash_crash a ChaosKind.momentum_ignition b = true
kinds_merge ChaosKind.momentum_ignition a ChaosKind.flash_crash b = true
kinds_merge k a j b = if same_kind k j then same_initiator a b else false

module _ {F : Type 0} where
  unfoldable pub is_close : ChaosClusterer → ChaosCluster F → ChaosEvent F → Bool
  is_close x current e =
      ltb 0 x.max_gap && leb e.start_seq (saturating_add current.end_seq x.max_gap)
      || ltb 0 x.max_time_gap_ns
        && leb e.start_ts_ns (saturating_add current.end_ts_ns x.max_time_gap_ns)

  unfoldable pub should_merge : ChaosClusterer → ChaosCluster F → ChaosEvent F → Bool
  should_merge x current e =
      if is_close x current e
      then kinds_merge current.dominant_kind current.initiator e.kind e.initiator
      else false

module _ {F : Type 0} (fl : Doubles F) where
  unfoldable pub recompute_composite : ChaosCluster F → ChaosCluster F
  recompute_composite c = record c {
    composite_severity =
        fl.mul c.peak_severity (fl.add (fl.from_word 1) (fl.ln (fl.from_word c.count)));
  }

  unfoldable pub from_event : ChaosEvent F → ChaosCluster F
  from_event e = recompute_composite (record {
    start_seq = e.start_seq;
    end_seq = e.end_seq;
    start_ts_ns = e.start_ts_ns;
    end_ts_ns = e.end_ts_ns;
    events = e ∷ [];
    peak_severity = e.severity;
    mean_severity = e.severity;
    composite_severity = fl.from_word 0;
    count = 1;
    dominant_kind = e.kind;
    initiator = e.initiator;
    sum_severity = e.severity;
  })

  unfoldable pub absorb : ChaosCluster F → ChaosEvent F → ChaosCluster F
  absorb c e =
      let sum = fl.add c.sum_severity e.severity in
      let n = add_u64 c.count 1 in
      recompute_composite (record c {
        end_seq = max c.end_seq e.end_seq;
        end_ts_ns = max c.end_ts_ns e.end_ts_ns;
        peak_severity = fl.max c.peak_severity e.severity;
        sum_severity = sum;
        count = n;
        mean_severity = fl.div sum (fl.from_word n);
        events = push c.events e;
      })

  -- The loop of `cluster`: the current cluster and those that are done.
  abbrev pub Clusters : Type 0
  Clusters = ChaosCluster F × List (ChaosCluster F)

  unfoldable pub cluster_step : ChaosClusterer → Clusters → ChaosEvent F → Clusters
  cluster_step x (current, clusters) e =
      if should_merge x current e
      then (absorb current e, clusters)
      else (from_event e, push clusters current)

  unfoldable pub cluster_loop : ChaosClusterer → Clusters → List (ChaosEvent F) → Clusters
  cluster_loop x s [] = s
  cluster_loop x s (e ∷ es) = cluster_loop x (cluster_step x s e) es

  -- `clusters.push(current)` after the loop
  unfoldable pub close_last : Clusters → List (ChaosCluster F)
  close_last (current, clusters) = push clusters current

  -- the clusters of sorted events
  unfoldable pub cluster_sorted : ChaosClusterer → List (ChaosEvent F) → List (ChaosCluster F)
  cluster_sorted x [] = []
  cluster_sorted x (e ∷ es) = close_last (cluster_loop x (from_event e, []) es)

  unfoldable pub cluster : ChaosClusterer → List (ChaosEvent F) → List (ChaosCluster F)
  cluster x events = cluster_sorted x (sort_by_key (λ (e : ChaosEvent F). e.start_seq) events)

-- ===== src/Chaos/Clustering/Maximal.antt =====
-- Where `ChaosClusterer::cluster` (chaos/src/clustering.rs) splits: only where its policy says so.
use flowlab.Prelude.{
  ◌≡◌, refl, ap, ◌∙◌, false, List, [], ◌∷◌, ◌++◌, append_assoc, push, arith, Bool-cases, inl, inr,
  sort_by_key, map,
}
use flowlab.Chaos.{ChaosEvent, Doubles}
use flowlab.Chaos.Clustering.{
  ChaosCluster, ChaosClusterer, should_merge, is_close, from_event, recompute_composite, absorb,
  Clusters, cluster_step, cluster_loop, close_last, cluster_sorted, cluster, with_windows,
}
use flowlab.Chaos.Clustering.Partition.{by_start}

module _ {F : Type 0} (x : ChaosClusterer) where
  -- The first flag of `d` does not merge into `c`.
  abbrev pub Splits : ChaosCluster F → ChaosCluster F → Type 0
  Splits c d =
      (e : ChaosEvent F) × (es : List (ChaosEvent F)) × (d.events ≡ e ∷ es)
      × (should_merge x c e ≡ false)

  -- So it is for all neighbours.
  abbrev pub Parted : List (ChaosCluster F) → Type 0
  Parted [] = Unit
  Parted (c ∷ []) = Unit
  Parted (c ∷ d ∷ cs) = Splits c d × Parted (d ∷ cs)

  Parted-push :
      (cs : List (ChaosCluster F)) (c d : ChaosCluster F)
      → Parted (push cs c)
      → Splits c d
      → Parted (push (push cs c) d)
  Parted-push [] c d p s = (s, tt)
  Parted-push (a ∷ []) c d p s = (p.0, (s, tt))
  Parted-push (a ∷ b ∷ cs) c d p s = (p.0, Parted-push (b ∷ cs) c d p.1 s)

  -- A cluster that has absorbed a flag begins with the same one.
  Parted-last :
      (cs : List (ChaosCluster F)) (c d : ChaosCluster F)
      → ((b : ChaosCluster F) → Splits b c → Splits b d)
      → Parted (push cs c)
      → Parted (push cs d)
  Parted-last [] c d keep p = tt
  Parted-last (a ∷ []) c d keep p = (keep a p.0, tt)
  Parted-last (a ∷ b ∷ cs) c d keep p = (p.0, Parted-last (b ∷ cs) c d keep p.1)

module _ {F : Type 0} (fl : Doubles F) (x : ChaosClusterer) where
  absorb-Splits :
      (c : ChaosCluster F) (e : ChaosEvent F) (b : ChaosCluster F)
      → Splits x b c
      → Splits x b (absorb fl c e)
  unfolding absorb recompute_composite
  absorb-Splits c e b (d, ds, eq, far) = (d, push ds e, ap (λ l. push l e) eq, far)

  step-Parted :
      (s : Clusters fl) (e : ChaosEvent F)
      → Parted x (close_last fl s)
      → Parted x (close_last fl (cluster_step fl x s e))
  unfolding cluster_step close_last
  step-Parted (c, cs) e p = elim (Bool-cases (should_merge x c e)) [
    | inl near ↦ rw near (Parted-last x cs c (absorb fl c e) (absorb-Splits c e) p)
    | inr far ↦ rw far (
        unfold from_event recompute_composite in
        Parted-push x cs c (from_event fl e) p (e, [], refl, far))
  ]

  loop-Parted :
      (s : Clusters fl) (es : List (ChaosEvent F))
      → Parted x (close_last fl s)
      → Parted x (close_last fl (cluster_loop fl x s es))
  unfolding cluster_loop
  loop-Parted s [] p = p
  loop-Parted s (e ∷ es) p = loop-Parted (cluster_step fl x s e) es (step-Parted s e p)

  sorted-Parted : (es : List (ChaosEvent F)) → Parted x (cluster_sorted fl x es)
  unfolding cluster_sorted close_last
  sorted-Parted [] = tt
  sorted-Parted (e ∷ es) = loop-Parted (from_event fl e, []) es tt

  -- Clusters are as long as the policy allows: the first flag of each does not merge into the
  -- cluster before it.
  pub cluster-Parted : (events : List (ChaosEvent F)) → Parted x (cluster fl x events)
  unfolding cluster
  cluster-Parted events = sorted-Parted (sort_by_key by_start events)

module _ {F : Type 0} (fl : Doubles F) where
  off_merges : (c : ChaosCluster F) (e : ChaosEvent F) → should_merge (with_windows 0 0) c e ≡ false
  unfolding should_merge is_close with_windows
  off_merges c e = ground arith

  off_step :
      (c : ChaosCluster F) (cs : List (ChaosCluster F)) (e : ChaosEvent F)
      → cluster_step fl (with_windows 0 0) (c, cs) e ≡ (from_event fl e, push cs c)
  unfolding cluster_step
  off_step c cs e = rw (off_merges c e)

  loop_off :
      (c : ChaosCluster F) (cs : List (ChaosCluster F)) (es : List (ChaosEvent F))
      → close_last fl (cluster_loop fl (with_windows 0 0) (c, cs) es)
        ≡ cs ++ c ∷ map (from_event fl) es
  unfolding cluster_loop close_last
  loop_off c cs [] = refl
  loop_off c cs (e ∷ es) =
      ap (λ s. close_last fl (cluster_loop fl (with_windows 0 0) s es)) (off_step c cs e)
      ∙ loop_off (from_event fl e) (push cs c) es
      ∙ append_assoc cs (c ∷ []) (from_event fl e ∷ map (from_event fl) es)

  -- With both windows off no two flags merge: there is a cluster of one flag for each, in the order
  -- of their first sequence number.
  pub cluster_off :
      (events : List (ChaosEvent F))
      → cluster fl (with_windows 0 0) events ≡ map (from_event fl) (sort_by_key by_start events)
  unfolding cluster
  cluster_off events = sorted_off (sort_by_key by_start events)
    where
      sorted_off :
          (es : List (ChaosEvent F))
          → cluster_sorted fl (with_windows 0 0) es ≡ map (from_event fl) es
      sorted_off [] = unfold cluster_sorted in refl
      sorted_off (e ∷ es) = unfold cluster_sorted in loop_off (from_event fl e) [] es

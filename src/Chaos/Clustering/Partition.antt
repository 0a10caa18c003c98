-- ===== src/Chaos/Clustering/Partition.antt =====
-- What the loop of `ChaosClusterer::cluster` (chaos/src/clustering.rs) makes of the sorted flags.
use mathlib.Core.List.{Perm}
use flowlab.Prelude.{
  Ascends, sort_by_key-Ascends, ℕ, ◌≡◌, refl, sym, ap, ◌∙◌, List, [], ◌∷◌, ◌++◌, All, subst,
  All-push, append-nil, append_assoc, push, Bool-cases, inl, inr, sort_by_key, sort_by_key-perm,
}
use flowlab.Chaos.{ChaosEvent, Doubles}
use flowlab.Chaos.Clustering.{
  ChaosClusterer, should_merge, from_event, recompute_composite, absorb, Clusters, cluster_step,
  cluster_loop, close_last, cluster_sorted, cluster,
}
use flowlab.Chaos.Clustering.Episodes.{
  IsEpisode, events_of, events_of-push, from_event-IsEpisode, absorb-IsEpisode, should_merge-joins,
}

abbrev pub by_start : {F : Type 0} → ChaosEvent F → ℕ
by_start e = e.start_seq

module _ {F : Type 0} (fl : Doubles F) (x : ChaosClusterer) where
  step-events :
      (s : Clusters fl) (e : ChaosEvent F)
      → events_of (close_last fl (cluster_step fl x s e)) ≡ events_of (close_last fl s) ++ e ∷ []
  unfolding cluster_step close_last absorb from_event recompute_composite
  step-events (c, cs) e = elim (Bool-cases (should_merge x c e)) [
    | inl near ↦ rw near (simp (events_of-push, append_assoc))
    | inr far ↦ rw far (events_of-push (push cs c) (from_event fl e))
  ]

  loop-events :
      (s : Clusters fl) (es : List (ChaosEvent F))
      → events_of (close_last fl (cluster_loop fl x s es)) ≡ events_of (close_last fl s) ++ es
  unfolding cluster_loop
  loop-events s [] = sym (append-nil (events_of (close_last fl s)))
  loop-events s (e ∷ es) =
      loop-events (cluster_step fl x s e) es
      ∙ ap (λ l. l ++ es) (step-events s e)
      ∙ append_assoc (events_of (close_last fl s)) (e ∷ []) es

  sorted-events : (es : List (ChaosEvent F)) → events_of (cluster_sorted fl x es) ≡ es
  unfolding cluster_sorted close_last events_of from_event recompute_composite
  sorted-events [] = refl
  sorted-events (e ∷ es) = loop-events (from_event fl e, []) es

  -- The clusters hold the flags of the input in the order of their first sequence number, flags with
  -- the same one in the order of the input: the numbers ascend, and no flag is lost, made up or held
  -- twice.
  pub cluster-events :
      (events : List (ChaosEvent F))
      → (events_of (cluster fl x events) ≡ sort_by_key by_start events)
        × Ascends by_start (events_of (cluster fl x events))
        × Perm (events_of (cluster fl x events)) events
  unfolding cluster
  cluster-events events =
      let e = sorted-events (sort_by_key by_start events) in
      (
        e,
        subst (Ascends by_start) (sym e) (sort_by_key-Ascends by_start events),
        subst (λ l. Perm l events) (sym e) (sort_by_key-perm by_start events),
      )

  -- Every cluster of a state is an episode.
  abbrev AreEpisodes : Clusters fl → Type 0
  AreEpisodes (c, cs) = IsEpisode fl c × All (IsEpisode fl) cs

  step-AreEpisodes :
      (s : Clusters fl) (e : ChaosEvent F) → AreEpisodes s → AreEpisodes (cluster_step fl x s e)
  unfolding cluster_step
  step-AreEpisodes (c, cs) e (w, ws) = elim (Bool-cases (should_merge x c e)) [
    | inl near ↦ rw near (absorb-IsEpisode fl c e w (should_merge-joins fl x c e near), ws)
    | inr far ↦ rw far (from_event-IsEpisode fl e, All-push (IsEpisode fl) cs c ws w)
  ]

  loop-AreEpisodes :
      (s : Clusters fl) (es : List (ChaosEvent F))
      → AreEpisodes s
      → All (IsEpisode fl) (close_last fl (cluster_loop fl x s es))
  unfolding cluster_loop close_last
  loop-AreEpisodes (c, cs) [] (w, ws) = All-push (IsEpisode fl) cs c ws w
  loop-AreEpisodes s (e ∷ es) w =
      loop-AreEpisodes (cluster_step fl x s e) es (step-AreEpisodes s e w)

  sorted-IsEpisode : (es : List (ChaosEvent F)) → All (IsEpisode fl) (cluster_sorted fl x es)
  unfolding cluster_sorted
  sorted-IsEpisode [] = tt
  sorted-IsEpisode (e ∷ es) =
      loop-AreEpisodes (from_event fl e, []) es (from_event-IsEpisode fl e, tt)

  -- Every cluster is an episode: it begins at its first flag, ends at the latest end of its flags,
  -- counts them modulo 2 ^ 64, has their largest severity, their sum, its quotient by the count as the
  -- mean (of one flag its severity) and `peak * (1 + ln count)`, and each later flag has the kind and
  -- the known initiator of the first, or is the ignition of its crash or the crash of its ignition.
  pub cluster-IsEpisode : (events : List (ChaosEvent F)) → All (IsEpisode fl) (cluster fl x events)
  unfolding cluster
  cluster-IsEpisode events = sorted-IsEpisode (sort_by_key by_start events)

-- ===== src/Chaos/Clustering/Episodes.antt =====
-- Each cluster of chaos/src/clustering.rs is an episode of one actor, or of one price move, and its
-- fields are those of its events.
use flowlab.Prelude.{
  subst, ℕ, ◌≡◌, refl, sym, ap, ◌%◌, true, false, Option, none, some, List, [], ◌∷◌, ◌++◌, All,
  length, length-push, foldl, foldl-append, All-push, append-nil, append_assoc, max, push, u64_mod,
  arith, ==_iff, Bool-cases, inl, inr, if◌then◌else◌, add_u64,
}
use flowlab.Chaos.{ChaosKind, ChaosEvent, Doubles, same_kind}
use flowlab.Chaos.Clustering.{
  ChaosCluster, ChaosClusterer, same_initiator, kinds_merge, should_merge, from_event,
  recompute_composite, absorb,
}

-- A later flag goes on with the episode that a flag began: kinds and initiators of both.
pub data Joins (k : ChaosKind) (a : Option ℕ) (j : ChaosKind) (b : Option ℕ) : Type 0 where
  same_actor : (i : ℕ) → k ≡ j → a ≡ some i → b ≡ some i → Joins k a j b
  ignites : k ≡ ChaosKind.flash_crash → j ≡ ChaosKind.momentum_ignition → Joins k a j b
  crashes : k ≡ ChaosKind.momentum_ignition → j ≡ ChaosKind.flash_crash → Joins k a j b

same_kind-eq : (k j : ChaosKind) → same_kind k j ≡ true → k ≡ j
unfolding same_kind
same_kind-eq k j e = ground arith

same_initiator-eq :
    (a b : Option ℕ) → same_initiator a b ≡ true → (i : ℕ) × (a ≡ some i) × (b ≡ some i)
unfolding same_initiator
same_initiator-eq none b e = cc
same_initiator-eq (some x) none e = cc
same_initiator-eq (some x) (some y) e = (x, refl, ap some (sym ((==_iff x y).0 e)))

by_actor :
    (k : ChaosKind) (a : Option ℕ) (j : ChaosKind) (b : Option ℕ)
    → (if same_kind k j then same_initiator a b else false) ≡ true
    → Joins k a j b
by_actor k a j b e = elim (Bool-cases (same_kind k j)) [
  | inl same ↦
      let (i, p, q) = same_initiator-eq a b (rw same at e) in
      same_actor i (same_kind-eq k j same) p q
  | inr other ↦ let h : false ≡ true = rw other at e in cc
]

kinds_merge-Joins :
    (k : ChaosKind) (a : Option ℕ) (j : ChaosKind) (b : Option ℕ)
    → kinds_merge k a j b ≡ true
    → Joins k a j b
unfolding kinds_merge
kinds_merge-Joins ChaosKind.flash_crash a ChaosKind.momentum_ignition b e = ignites refl refl
kinds_merge-Joins ChaosKind.momentum_ignition a ChaosKind.flash_crash b e = crashes refl refl
kinds_merge-Joins k a j b e = by_actor k a j b e

module _ {F : Type 0} where
  abbrev pub Continues : ChaosEvent F → ChaosEvent F → Type 0
  Continues a b = Joins a.kind a.initiator b.kind b.initiator

  -- the latest end of a run of events
  abbrev pub latest_seq : ChaosEvent F → List (ChaosEvent F) → ℕ
  latest_seq e es = foldl (λ n (d : ChaosEvent F). max n d.end_seq) e.end_seq es

  abbrev pub latest_ts : ChaosEvent F → List (ChaosEvent F) → ℕ
  latest_ts e es = foldl (λ n (d : ChaosEvent F). max n d.end_ts_ns) e.end_ts_ns es

  -- the events of all clusters, one after the other
  unfoldable pub events_of : List (ChaosCluster F) → List (ChaosEvent F)
  events_of [] = []
  events_of (c ∷ cs) = c.events ++ events_of cs

  pub events_of-push :
      (cs : List (ChaosCluster F)) (c : ChaosCluster F)
      → events_of (push cs c) ≡ events_of cs ++ c.events
  unfolding events_of
  events_of-push [] c = simp append-nil
  events_of-push (d ∷ cs) c = simp (events_of-push cs c, append_assoc)

module _ {F : Type 0} (fl : Doubles F) where
  -- the mean of the severities: the sum over the count, where there is more than one flag
  abbrev pub mean_of : (sum severity : F) → ℕ → List (ChaosEvent F) → F
  mean_of sum severity count [] = severity
  mean_of sum severity count (d ∷ ds) = fl.div sum (fl.from_word count)

  mean_of-push :
      (sum severity : F) (count : ℕ) (ds : List (ChaosEvent F)) (d : ChaosEvent F)
      → mean_of sum severity count (push ds d) ≡ fl.div sum (fl.from_word count)
  mean_of-push sum severity count [] d = refl
  mean_of-push sum severity count (b ∷ ds) d = refl

  -- The cluster of the events `head ∷ tail`: its fields are theirs, and each goes on with the first.
  pub record IsEpisode (c : ChaosCluster F) : Type 0 where
    pub head : ChaosEvent F
    pub tail : List (ChaosEvent F)
    pub events_eq : c.events ≡ head ∷ tail
    pub start_seq_eq : c.start_seq ≡ head.start_seq
    pub start_ts_eq : c.start_ts_ns ≡ head.start_ts_ns
    pub end_seq_eq : c.end_seq ≡ latest_seq head tail
    pub end_ts_eq : c.end_ts_ns ≡ latest_ts head tail
    pub kind_eq : c.dominant_kind ≡ head.kind
    pub initiator_eq : c.initiator ≡ head.initiator
    pub count_eq : c.count ≡ length c.events % u64_mod
    pub peak_eq :
        c.peak_severity ≡ foldl (λ x (d : ChaosEvent F). fl.max x d.severity) head.severity tail
    pub sum_eq :
        c.sum_severity ≡ foldl (λ x (d : ChaosEvent F). fl.add x d.severity) head.severity tail
    pub mean_eq : c.mean_severity ≡ mean_of c.sum_severity head.severity c.count tail
    pub composite_eq :
        c.composite_severity
        ≡ fl.mul c.peak_severity (fl.add (fl.from_word 1) (fl.ln (fl.from_word c.count)))
    pub continues : All (Continues head) tail

  pub from_event-IsEpisode : (e : ChaosEvent F) → IsEpisode (from_event fl e)
  unfolding from_event recompute_composite
  from_event-IsEpisode e = record {
    head = e;
    tail = [];
    events_eq = refl;
    start_seq_eq = refl;
    start_ts_eq = refl;
    end_seq_eq = refl;
    end_ts_eq = refl;
    kind_eq = refl;
    initiator_eq = refl;
    count_eq = omega arith;
    peak_eq = refl;
    sum_eq = refl;
    mean_eq = refl;
    composite_eq = refl;
    continues = tt;
  }

  pub absorb-IsEpisode :
      (c : ChaosCluster F) (e : ChaosEvent F)
      → IsEpisode c
      → kinds_merge c.dominant_kind c.initiator e.kind e.initiator ≡ true
      → IsEpisode (absorb fl c e)
  unfolding absorb recompute_composite
  absorb-IsEpisode c e w joins =
      let h = w.head in
      let t = w.tail in
      record {
        head = h;
        tail = push t e;
        events_eq = ap (λ l. push l e) w.events_eq;
        start_seq_eq = w.start_seq_eq;
        start_ts_eq = w.start_ts_eq;
        end_seq_eq = simp (foldl-append, w.end_seq_eq);
        end_ts_eq = simp (foldl-append, w.end_ts_eq);
        kind_eq = w.kind_eq;
        initiator_eq = w.initiator_eq;
        count_eq = unfold add_u64 in let n = w.count_eq in omega (arith, n, length-push c.events e);
        peak_eq = simp (foldl-append, w.peak_eq);
        sum_eq = simp (foldl-append, w.sum_eq);
        mean_eq = sym (mean_of-push _ h.severity _ t e);
        composite_eq = refl;
        continues = All-push (Continues h) t e w.continues (
            kinds_merge-Joins h.kind h.initiator e.kind e.initiator (
              subst (λ k. kinds_merge k h.initiator e.kind e.initiator ≡ true) w.kind_eq
                (subst (λ a. kinds_merge c.dominant_kind a e.kind e.initiator ≡ true) w.initiator_eq
                  joins)));
      }

  pub should_merge-joins :
      (x : ChaosClusterer) (c : ChaosCluster F) (e : ChaosEvent F)
      → should_merge x c e ≡ true
      → kinds_merge c.dominant_kind c.initiator e.kind e.initiator ≡ true
  unfolding should_merge
  should_merge-joins x c e h = ground arith

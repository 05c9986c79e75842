-- ===== src/Graph/Kahn.antt =====
-- internal/graph/graph.go: the invariant of the outer loop of `TopoSort`, and its termination.
use cloudcc.Base.{
  IsDistinct-snoc, suc, ◌<◌, ◌≡◌, true, false, ◌||◌, ◌&&◌, List, [], ◌∷◌, ◌++◌, arith, Text, str_eq,
  elem, if◌then◌else◌, Bool-cases, str_eq_iff, str_eq_refl, IsAscending, IsDistinct, inl, inr,
  elem-append, Within, dict_keys, subst, IsBelow-not-elem, IsAscending-IsDistinct,
}
use cloudcc.Base.Int.{pos, decrement, is_zero}
use cloudcc.Graph.Defs.{Directed, adjacent, Kahn, round}
use cloudcc.Graph.Shape.{IsShaped}
use cloudcc.Graph.Release.{
  missing, missing_absent, missing_present, missing_zero, release_indeg, release_ready,
  release-IsAscending,
}

-- Every node stands behind its predecessors, of which `seen` may hold some.
abbrev pub IsTopological : (Text → List Text) → List Text → List Text → Type 0
IsTopological preds seen [] = Unit {0}
IsTopological preds seen (k ∷ ks) = Within (preds k) seen × IsTopological preds (k ∷ seen) ks

IsTopological-snoc :
    (preds : Text → List Text) (seen xs : List Text) (k : Text)
    → IsTopological preds seen xs
    → ((p : Text) → elem p (preds k) ≡ true → (elem p xs || elem p seen) ≡ true)
    → IsTopological preds seen (xs ++ k ∷ [])
unfolding elem
IsTopological-snoc preds seen [] k t h = (h, tt)
IsTopological-snoc preds seen (x ∷ xs) k t h =
    (t.0, IsTopological-snoc preds (x ∷ seen) xs k t.1 λ p e. ground (arith, h p e))

module _ {ℓ} {N : Type ℓ} (g : Directed N) where
  abbrev pub node_keys : List Text
  node_keys = dict_keys g.nodes

  abbrev pub preds : Text → List Text
  preds k = adjacent g.rev k

  pub record IsRunning (s : Kahn) : Type 0 where
    pub counted : (k : Text) → elem k node_keys ≡ true → s.indeg k ≡ pos (missing s.out (preds k))
    pub placed_known : Within s.out node_keys
    pub ready_known : Within s.ready node_keys
    pub placed_distinct : IsDistinct s.out
    pub ready_ascending : IsAscending s.ready
    pub apart : (k : Text) → elem k s.ready ≡ true → elem k s.out ≡ false
    pub ready_free : (k : Text) → elem k s.ready ≡ true → missing s.out (preds k) ≡ 0
    pub placed_free : (k : Text) → elem k s.out ≡ true → missing s.out (preds k) ≡ 0
    pub waiting :
        (k : Text)
        → elem k node_keys ≡ true
        → elem k s.out ≡ false
        → elem k s.ready ≡ false
        → 0 < missing s.out (preds k)
    pub ordered : IsTopological preds [] s.out

  -- One round keeps the invariant.
  module _ (shaped : IsShaped g) (s : Kahn) (k : Text) (rest : List Text) (e : s.ready ≡ k ∷ rest)
      (inv : IsRunning s) where
    open inv use {
      counted, placed_known, ready_known, placed_distinct, ready_ascending, apart, ready_free,
      placed_free, waiting, ordered,
    }

    head_ready : elem k s.ready ≡ true
    unfolding elem
    head_ready = ground (arith, e, str_eq_refl k)

    head_known : elem k node_keys ≡ true
    head_known = ready_known k head_ready

    head_fresh : elem k s.out ≡ false
    head_fresh = apart k head_ready

    rest_ready : (j : Text) → elem j rest ≡ true → elem j s.ready ≡ true
    unfolding elem
    rest_ready j h = ground (arith, e)

    ready_cases : (j : Text) → elem j s.ready ≡ (str_eq j k || elem j rest)
    unfolding elem
    ready_cases j = rw e

    rest-IsAscending : IsAscending (k ∷ rest)
    rest-IsAscending = subst IsAscending e ready_ascending

    rest_other : elem k rest ≡ false
    rest_other = IsBelow-not-elem k rest rest-IsAscending.0

    next : Kahn
    next = round g s k rest

    next_out : (j : Text) → elem j (next).out ≡ (elem j s.out || str_eq j k)
    unfolding next round elem
    next_out j = ground (arith, elem-append j s.out (k ∷ []))

    -- The successors of `k` are the nodes of which it is a predecessor.
    abbrev succs : List Text
    succs = adjacent g.order k

    succs-IsDistinct : IsDistinct succs
    succs-IsDistinct = IsAscending-IsDistinct succs (shaped.ascending_out k)

    next_indeg :
        (j : Text) → next.indeg j ≡ (if elem j succs then decrement (s.indeg j) else s.indeg j)
    unfolding next round
    next_indeg j = release_indeg succs s.indeg rest j succs-IsDistinct

    next_ready :
        (j : Text)
        → elem j next.ready ≡ (elem j rest || (elem j succs && is_zero (decrement (s.indeg j))))
    unfolding next round
    next_ready j = release_ready succs s.indeg rest j succs-IsDistinct

    missing_step :
        (j : Text)
        → missing s.out (preds j)
          ≡ (if elem j succs then suc (missing next.out (preds j)) else missing next.out (preds j))
    unfolding next round
    missing_step j = ground (
      arith,
      missing_present s.out (preds j) k (IsAscending-IsDistinct _ (shaped.ascending_in j))
          head_fresh,
      missing_absent s.out (preds j) k,
      shaped.mirrored k j,
    )

    free_kept : (j : Text) → missing s.out (preds j) ≡ 0 → missing next.out (preds j) ≡ 0
    free_kept j h = ground (arith, missing_step j)

    counted_next :
        (j : Text) → elem j node_keys ≡ true → next.indeg j ≡ pos (missing next.out (preds j))
    unfolding decrement
    counted_next j h = ground (arith, next_indeg j, missing_step j, counted j h)

    -- A node that the round puts into the queue.
    released :
        (j : Text)
        → (elem j succs && is_zero (decrement (s.indeg j))) ≡ true
        → (elem j node_keys ≡ true)
          × (elem j s.out ≡ false)
          × (str_eq j k ≡ false)
          × (missing next.out (preds j) ≡ 0)
    unfolding decrement
    released j h =
        let known = (shaped.inside k j (ground arith)).1 in
        (
          known,
          ground (arith, placed_free j, missing_step j),
          ground (arith, str_eq_iff j k, ready_free k head_ready, missing_step j),
          ground (arith, counted j known, missing_step j),
        )

    ready_next :
        (j : Text)
        → elem j next.ready ≡ true
        → (elem j node_keys ≡ true) × (elem j next.out ≡ false) × (missing next.out (preds j) ≡ 0)
    ready_next j h = elim (Bool-cases (elem j rest)) [
      | inl old ↦
          let was = rest_ready j old in
          (
            ready_known j was,
            ground (arith, next_out j, apart j was, str_eq_iff j k, rest_other),
            free_kept j (ready_free j was),
          )
      | inr not_old ↦
          let (known, fresh, other, free) = released j (ground (arith, next_ready j)) in
          (known, ground (arith, next_out j), free)
    ]

    waiting_next :
        (j : Text)
        → elem j node_keys ≡ true
        → elem j next.out ≡ false
        → elem j next.ready ≡ false
        → 0 < missing next.out (preds j)
    unfolding decrement
    waiting_next j h o r =
        ground
          (arith, next_out j, next_ready j, ready_cases j, waiting j h, missing_step j, counted j h)

    placed_next :
        (j : Text)
        → elem j next.out ≡ true
        → (elem j node_keys ≡ true) × (missing next.out (preds j) ≡ 0)
    placed_next j h = elim (Bool-cases (elem j s.out)) [
      | inl old ↦ (placed_known j old, free_kept j (placed_free j old))
      | inr new ↦
          let same : j ≡ k = ground (arith, next_out j, str_eq_iff j k) in
          rw same (head_known, free_kept k (ready_free k head_ready))
    ]

    pub round-IsRunning : IsRunning (round g s k rest)
    unfolding next
    round-IsRunning = record {
      counted = counted_next;
      placed_known = λ j h. (placed_next j h).0;
      ready_known = λ j h. (ready_next j h).0;
      placed_distinct = unfold round in IsDistinct-snoc s.out k placed_distinct head_fresh;
      ready_ascending = unfold round in release-IsAscending succs s.indeg rest rest-IsAscending.1;
      apart = λ j h. (ready_next j h).1;
      ready_free = λ j h. (ready_next j h).2;
      placed_free = λ j h. (placed_next j h).1;
      waiting = waiting_next;
      ordered =
          unfold round in
          IsTopological-snoc preds [] s.out k ordered (λ p h.
            unfold elem in
            ground (arith, missing_zero s.out (preds k) (ready_free k head_ready) p h));
    }

-- ===== src/Graph/Shape.antt =====
-- internal/graph/graph.go: the invariant of a graph, and what `Add` and `Connect` do to it.
use cloudcc.Base.{
  subst, sym, ◌≡◌, refl, ◌≢◌, true, false, ◌||◌, ◌&&◌, none, some, arith, Text, str_eq, elem,
  dict_keys, update, Bool-cases, str_eq_iff, IsAscending, IsDistinct, elem-put, put-IsDistinct, inl,
  inr, ◌⊎◌, ◌↔◌,
}
use cloudcc.Graph.Defs.{Directed, empty, has, add, connect, adjacent, insert_sorted}
use cloudcc.Graph.Adjacency.{elem-insert_sorted, insert_sorted-IsAscending}

-- What every graph built by `New`, `Add` and `Connect` satisfies.
pub record IsShaped {ℓ} {N : Type ℓ} (g : Directed N) : Type 0 where
  pub distinct : IsDistinct (dict_keys g.nodes)
  pub present :
      (k : Text) → elem k (dict_keys g.nodes) ≡ true → (g.order k ≢ none) × (g.rev k ≢ none)
  pub absent :
      (k : Text) → elem k (dict_keys g.nodes) ≡ false → (g.order k ≡ none) × (g.rev k ≡ none)
  pub ascending_out : (k : Text) → IsAscending (adjacent g.order k)
  pub ascending_in : (k : Text) → IsAscending (adjacent g.rev k)
  pub mirrored : (a b : Text) → elem b (adjacent g.order a) ≡ elem a (adjacent g.rev b)
  pub inside :
      (a b : Text)
      → elem b (adjacent g.order a) ≡ true
      → (elem a (dict_keys g.nodes) ≡ true) × (elem b (dict_keys g.nodes) ≡ true)

module _ {ℓ} {N : Type ℓ} where
  pub empty-IsShaped : IsShaped (empty {N = N})
  unfolding elem
  empty-IsShaped = record {
    distinct = tt;
    present = λ k h. (cc, cc);
    absent = λ k h. (refl, refl);
    ascending_out = λ k. tt;
    ascending_in = λ k. tt;
    mirrored = λ a b. refl;
    inside = λ a b h. cc;
  }

  -- `Add` changes no adjacency list.
  pub adjacent-add :
      (g : Directed N) (key : Text) (n : N)
      → IsShaped g
      → (k : Text)
      → (adjacent (add g key n).order k ≡ adjacent g.order k)
        × (adjacent (add g key n).rev k ≡ adjacent g.rev k)
  unfolding add update
  adjacent-add g key n s k = elim (Bool-cases (elem key (dict_keys g.nodes))) [
    | inl old ↦ ground (arith, s.present key old)
    | inr new ↦ ground (arith, s.absent key new, str_eq_iff k key)
  ]

  pub keys-add :
      (g : Directed N) (key : Text) (n : N) (k : Text)
      → elem k (dict_keys (add g key n).nodes) ≡ (str_eq k key || elem k (dict_keys g.nodes))
  unfolding add
  keys-add g key n k = ground (arith, elem-put k key n g.nodes)

  IsDistinct-add :
      (g : Directed N) (key : Text) (n : N)
      → IsShaped g
      → IsDistinct (dict_keys (add g key n).nodes)
  unfolding add
  IsDistinct-add g key n s = ground (arith, put-IsDistinct key n g.nodes s.distinct)

  present-add :
      (g : Directed N) (key : Text) (n : N)
      → IsShaped g
      → (k : Text) → elem k (dict_keys (add g key n).nodes) ≡ true
      → ((add g key n).order k ≢ none) × ((add g key n).rev k ≢ none)
  unfolding add update
  present-add g key n s k h =
      ground (arith, elem-put k key n g.nodes, s.present k, s.absent key, str_eq_iff k key)

  absent-add :
      (g : Directed N) (key : Text) (n : N)
      → IsShaped g
      → (k : Text) → elem k (dict_keys (add g key n).nodes) ≡ false
      → ((add g key n).order k ≡ none) × ((add g key n).rev k ≡ none)
  unfolding add update
  absent-add g key n s k h = ground (arith, elem-put k key n g.nodes, s.absent k, str_eq_iff k key)

  -- `Add` keeps the invariant of a graph: its nodes are different, every node has a list in both maps and nothing
  -- else has one, the lists are strictly ascending, and the two maps hold the same edges, all between nodes.
  pub add-IsShaped : (g : Directed N) (key : Text) (n : N) → IsShaped g → IsShaped (add g key n)
  add-IsShaped g key n s = record {
    distinct = IsDistinct-add g key n s;
    present = present-add g key n s;
    absent = absent-add g key n s;
    ascending_out = λ k. rw ((adjacent-add g key n s k).0) (s.ascending_out k);
    ascending_in = λ k. rw ((adjacent-add g key n s k).1) (s.ascending_in k);
    mirrored =
        λ a b. rw ((adjacent-add g key n s a).0, (adjacent-add g key n s b).1) (s.mirrored a b);
    inside = λ a b h.
        let old = s.inside a b (rw (adjacent-add g key n s a).0 at h) in
        ground (arith, keys-add g key n a, keys-add g key n b);
  }

  -- `Connect` panics exactly when an endpoint is missing.
  pub connect-eq-none :
      (g : Directed N) (from to : Text)
      → (connect g from to ≡ none) ↔ ((has g from ≡ false) ⊎ (has g to ≡ false))
  unfolding connect
  connect-eq-none g from to = (λ h. ground arith, λ h. ground arith)

  module _ (g : Directed N) (from to : Text) {g' : Directed N}
      (joined : connect g from to ≡ some g') where
    pub connect_nodes : g'.nodes ≡ g.nodes
    unfolding connect
    connect_nodes = ground arith

    pub connect_endpoints : (has g from ≡ true) × (has g to ≡ true)
    unfolding connect
    connect_endpoints = ground arith

    connect_order :
        (k : Text)
        → g'.order k ≡ update from (some (insert_sorted (adjacent g.order from) to)) g.order k
    unfolding connect
    connect_order k = ground arith

    connect_rev :
        (k : Text) → g'.rev k ≡ update to (some (insert_sorted (adjacent g.rev to) from)) g.rev k
    unfolding connect
    connect_rev k = ground arith

    pub elem-order-connect :
        (a b : Text)
        → elem b (adjacent g'.order a)
          ≡ ((str_eq a from && str_eq b to) || elem b (adjacent g.order a))
    unfolding update
    elem-order-connect a b =
        ground (
          arith,
          connect_order a,
          elem-insert_sorted b to (adjacent g.order from),
          str_eq_iff a from,
        )

    pub elem-rev-connect :
        (a b : Text)
        → elem b (adjacent g'.rev a) ≡ ((str_eq a to && str_eq b from) || elem b (adjacent g.rev a))
    unfolding update
    elem-rev-connect a b =
        ground
          (arith, connect_rev a, elem-insert_sorted b from (adjacent g.rev to), str_eq_iff a to)

    -- A connection adds exactly the one edge: to the successors of its first node, and to the predecessors of its second.
    pub elem-connect :
        (a b : Text)
        → (elem b (adjacent g'.order a)
            ≡ ((str_eq a from && str_eq b to) || elem b (adjacent g.order a)))
          × (elem a (adjacent g'.rev b)
              ≡ ((str_eq b to && str_eq a from) || elem a (adjacent g.rev b)))
    elem-connect a b = (elem-order-connect a b, elem-rev-connect b a)

    IsAscending-out-connect : IsShaped g → (k : Text) → IsAscending (adjacent g'.order k)
    unfolding update
    IsAscending-out-connect s k = elim (Bool-cases (str_eq k from)) [
      | inl e ↦
          let changed : adjacent g'.order k ≡ insert_sorted (adjacent g.order from) to =
            ground (arith, connect_order k) in
          subst IsAscending (sym changed)
            (insert_sorted-IsAscending (adjacent g.order from) to (s.ascending_out from))
      | inr e ↦
          let same : adjacent g'.order k ≡ adjacent g.order k = ground (arith, connect_order k) in
          subst IsAscending (sym same) (s.ascending_out k)
    ]

    IsAscending-in-connect : IsShaped g → (k : Text) → IsAscending (adjacent g'.rev k)
    unfolding update
    IsAscending-in-connect s k = elim (Bool-cases (str_eq k to)) [
      | inl e ↦
          let changed : adjacent g'.rev k ≡ insert_sorted (adjacent g.rev to) from =
            ground (arith, connect_rev k) in
          subst IsAscending (sym changed)
            (insert_sorted-IsAscending (adjacent g.rev to) from (s.ascending_in to))
      | inr e ↦
          let same : adjacent g'.rev k ≡ adjacent g.rev k = ground (arith, connect_rev k) in
          subst IsAscending (sym same) (s.ascending_in k)
    ]

    -- A connection keeps the invariant of a graph: an edge stands in both maps, between nodes, and once.
    pub connect-IsShaped : IsShaped g → IsShaped g'
    unfolding has
    connect-IsShaped s = record {
      distinct = rw connect_nodes s.distinct;
      present = λ k h.
          unfold update in
          ground
            (arith, connect_nodes, connect_order k, connect_rev k, s.present k, connect_endpoints);
      absent = λ k h.
          unfold update in
          ground (
            arith,
            connect_nodes,
            connect_order k,
            connect_rev k,
            s.absent k,
            connect_endpoints,
            str_eq_iff k from,
            str_eq_iff k to,
          );
      ascending_out = IsAscending-out-connect s;
      ascending_in = IsAscending-in-connect s;
      mirrored =
          λ a b. ground (arith, elem-order-connect a b, elem-rev-connect b a, s.mirrored a b);
      inside = λ a b h. ground (
        arith,
        connect_nodes,
        elem-order-connect a b,
        connect_endpoints,
        s.inside a b,
        str_eq_iff a from,
        str_eq_iff b to,
      );
    }

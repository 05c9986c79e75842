-- ===== src/Graph/Topo.antt =====
-- internal/graph/graph.go: what `TopoSort` promises.
use cloudcc.Base.{
  ℕ, zero, suc, ◌<◌, ◌≡◌, refl, ◌≢◌, Bool, true, false, List, [], ◌∷◌, arith, Text, elem,
  if◌then◌else◌, str_eq_iff, IsDistinct, inl, inr, length, Within, sym, subst, length-le_of_Within,
  Within-full, ◌∙◌, ◌==◌,
}
use cloudcc.Graph.Defs.{
  Directed, Kahn, finish, topo_sort, Sorting, sorted, cycle, ran_out, has, successors, predecessors,
}
use cloudcc.Graph.Shape.{IsShaped}
use cloudcc.Graph.Kahn.{IsTopological, IsRunning, node_keys}
use cloudcc.Graph.Final.{
  topo_sort_final, Within-cases, held_back, elem-stuck, stuck_only, length-dict_keys, stuck,
}

-- What each answer promises.
abbrev pub IsOrder {ℓ} : {N : Type ℓ} → Directed N → List Text → Type 0
IsOrder g out =
    IsDistinct out × ((k : Text) → elem k out ≡ has g k) × IsTopological (predecessors g) [] out

abbrev pub IsDeadlock {ℓ} : {N : Type ℓ} → Directed N → List Text → Type 0
IsDeadlock g ks =
    (ks ≢ [])
    × ((k : Text)
        → elem k ks ≡ true
        → (p : Text) × (elem p (predecessors g k) ≡ true) × (elem p ks ≡ true))

abbrev pub Promise {ℓ} : {N : Type ℓ} → Directed N → Sorting → Type 0
Promise g (sorted out) = IsOrder g out
Promise g (cycle ks) = IsDeadlock g ks
Promise g ran_out = ⊥

module _ {ℓ} {N : Type ℓ} (g : Directed N) (shaped : IsShaped g) where
  length_nodes_placed :
      (t : Kahn) → IsRunning g t → length t.out ≡ length g.nodes → Within (node_keys g) t.out
  length_nodes_placed t inv e =
      Within-full t.out (node_keys g) inv.placed_distinct inv.placed_known
        (e ∙ sym (length-dict_keys g.nodes))

  placed_iff :
      (t : Kahn) → IsRunning g t → Within (node_keys g) t.out → (k : Text) → elem k t.out ≡ has g k
  unfolding has
  placed_iff t inv full k = ground (arith, inv.placed_known k, full k)

  unplaced :
      (t : Kahn)
      → IsRunning g t
      → length t.out ≢ length g.nodes
      → (k : Text) × (elem k (node_keys g) ≡ true) × (elem k t.out ≡ false)
  unplaced t inv short = elim (Within-cases (node_keys g) t.out) [
    | inr found ↦ found
    | inl full ↦ absurd (
        short (
          omega (
            arith,
            length-dict_keys g.nodes,
            length-le_of_Within (node_keys g) t.out shaped.distinct full,
            length-le_of_Within t.out (node_keys g) inv.placed_distinct inv.placed_known,
          )))
  ]

  deadlocked :
      (t : Kahn)
      → (inv : IsRunning g t) → (empty : t.ready ≡ []) → length t.out ≢ length g.nodes
      → IsDeadlock g (stuck g shaped t inv empty)
  unfolding predecessors elem
  deadlocked t inv empty short = (
    λ e.
        let (k, known, outside) = unplaced t inv short in
        cc (subst (λ l. elem k l ≡ true) e (elem-stuck g shaped t inv empty k known outside)),
    λ k h.
        let (known, outside) = stuck_only g shaped t inv empty k h in
        let (p, before, p_known, p_outside) = held_back g shaped t inv empty k known outside in
        (p, before, elem-stuck g shaped t inv empty p p_known p_outside),
  )

  Promise-if :
      (b : Bool) (out ks : List Text)
      → (b ≡ true → IsOrder g out)
      → (b ≡ false → IsDeadlock g ks)
      → Promise g (if b then sorted out else cycle ks)
  Promise-if true out ks yes_case no_case = yes_case refl
  Promise-if false out ks yes_case no_case = no_case refl

  finish-Promise : (t : Kahn) → IsRunning g t → t.ready ≡ [] → Promise g (finish g t)
  unfolding finish predecessors
  finish-Promise t inv empty =
      Promise-if (length t.out == length g.nodes) t.out (stuck g shaped t inv empty)
        (λ e. (
          inv.placed_distinct,
          placed_iff t inv (length_nodes_placed t inv (ground arith)),
          inv.ordered,
        ))
        (λ e. deadlocked t inv empty (ground arith))

  -- On a graph that `Add` and `Connect` built, `TopoSort` returns either an order of all the nodes, each
  -- of them once and behind all its predecessors, or the error with at least one node, where every
  -- node named has a predecessor that is named too. The loop never needs more rounds than there are nodes.
  pub topo_sort-Promise : Promise g (topo_sort g)
  topo_sort-Promise =
      let (t, e, inv, empty) = topo_sort_final g shaped in
      subst (Promise g) (sym e) (finish-Promise t inv empty)

  ranked_placed :
      (rank : Text → ℕ)
      → ((a b : Text) → elem b (successors g a) ≡ true → rank a < rank b)
      → (ks : List Text)
      → ((k : Text)
          → elem k ks ≡ true
          → (p : Text) × (elem p (predecessors g k) ≡ true) × (elem p ks ≡ true))
      → (n : ℕ) (k : Text) → rank k < n
      → elem k ks ≡ true
      → ⊥
  unfolding successors predecessors
  ranked_placed rank up ks back zero k lt h = absurd (omega arith)
  ranked_placed rank up ks back (suc n) k lt h =
      let (p, before, inside) = back k h in
      ranked_placed rank up ks back n p (omega (arith, up p k (shaped.mirrored p k ∙ before)))
        inside

  sorted_of_Promise :
      (rank : Text → ℕ)
      → ((a b : Text) → elem b (successors g a) ≡ true → rank a < rank b)
      → (r : Sorting) → Promise g r
      → (out : List Text) × (r ≡ sorted out)
  unfolding elem
  sorted_of_Promise rank up (sorted out) h = (out, refl)
  sorted_of_Promise rank up (cycle []) h = absurd (h.0 refl)
  sorted_of_Promise rank up (cycle (k ∷ ks)) h = absurd (
      ranked_placed rank up (k ∷ ks) h.1 (suc (rank k)) k (omega arith)
        (ground (arith, str_eq_iff k k)))
  sorted_of_Promise rank up ran_out h = absurd h

  -- A graph that `Add` and `Connect` built, on which some rank grows along every edge, is always sorted.
  pub topo_sort_acyclic :
      (rank : Text → ℕ)
      → ((a b : Text) → elem b (successors g a) ≡ true → rank a < rank b)
      → (out : List Text) × (topo_sort g ≡ sorted out)
  topo_sort_acyclic rank up = sorted_of_Promise rank up (topo_sort g) topo_sort-Promise

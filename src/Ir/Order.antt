-- ===== src/Ir/Order.antt =====
-- internal/ir/ir.go: what `ResourceOrder` guarantees.
use cloudcc.Base.{
  ◌≡◌, refl, sym, ap, subst, ◌∙◌, ◌≢◌, Bool, true, false, ◌||◌, none, some, List, [], ◌∷◌, Text,
  str_eq, str_eq_iff, elem, put, fetch, fetch-put, fetch-ne-none, dict_keys, map, arith,
  Option-cases, inl, inr, IsDistinct,
}
use cloudcc.Graph
use cloudcc.Graph.{Directed, Sorting, sorted, cycle, ran_out, has, adjacent, predecessors}
use cloudcc.Graph.Shape.{IsShaped, empty-IsShaped, add-IsShaped, adjacent-add, keys-add}
use cloudcc.Graph.Linked.{IsLinked}
use cloudcc.Graph.Kahn.{IsTopological}
use cloudcc.Graph.Topo.{Promise, topo_sort-Promise}
use cloudcc.Ir.Defs.{
  Key, key_string, Edge, Program, Ordering, ordered, looped, panicked, too_many_rounds, key_at,
  key_order, add_keys, resource_order, resources, edges,
}
use cloudcc.Ir.Links.{demands, IsBehind, link_edges_lem}

module _ {I R : Type 0} (intent_key : I → Key) (resource_key : R → Key) where
  abbrev pub resource_names : List R → List Text
  resource_names rs = map (λ r. key_string (resource_key r)) rs

  -- What the first loop keeps: the map is the nodes of the graph, which are those of `seen`.
  record IsNamed (seen : Text → Bool) (g : Directed Key) (by_string : List (Text × Key))
      : Type 0 where
    same : by_string ≡ g.nodes
    shaped : IsShaped g
    named : (k : Text) (key : Key) → fetch k by_string ≡ some key → key_string key ≡ k
    no_edges : (k : Text) → adjacent g.rev k ≡ []
    known : (k : Text) → elem k (dict_keys g.nodes) ≡ seen k

  empty-IsNamed : IsNamed (λ k. false) Graph.empty []
  unfolding fetch elem
  empty-IsNamed = record {
    same = refl;
    shaped = empty-IsShaped;
    named = λ k key h. cc;
    no_edges = λ k. refl;
    known = λ k. refl;
  }

  add-IsNamed :
      (g : Directed Key) (by_string : List (Text × Key)) (seen : Text → Bool) (key : Key)
      → IsNamed seen g by_string
      → IsNamed
          (λ k. str_eq k (key_string key) || seen k)
          (Graph.add g (key_string key) key)
          (put (key_string key) key by_string)
  add-IsNamed g by_string seen key h = record {
    same = unfold Graph.add in ground (arith, h.same);
    shaped = add-IsShaped g (key_string key) key h.shaped;
    named = λ k j e. ground (
      arith,
      fetch-put k (key_string key) key by_string,
      h.named k j,
      str_eq_iff k (key_string key),
    );
    no_edges = λ k. (adjacent-add g (key_string key) key h.shaped k).1 ∙ h.no_edges k;
    known = λ k. ground (arith, keys-add g (key_string key) key k, h.known k);
  }

  abbrev added : List R → Directed Key → List (Text × Key) → Directed Key × List (Text × Key)
  added rs g by_string = add_keys intent_key resource_key rs (g, by_string)

  reordered :
      (r : R) (rs : List R) (seen : Text → Bool) (g : Directed Key) (by_string : List (Text × Key))
      → IsNamed
          (λ k. elem k (resource_names rs) || (str_eq k (key_string (resource_key r)) || seen k))
          g
          by_string
      → IsNamed (λ k. elem k (resource_names (r ∷ rs)) || seen k) g by_string
  unfolding elem
  reordered r rs seen g by_string h = record {
    same = h.same;
    shaped = h.shaped;
    named = h.named;
    no_edges = h.no_edges;
    known = λ k. ground (arith, h.known k);
  }

  add_keys_lem :
      (rs : List R) (g : Directed Key) (by_string : List (Text × Key)) (seen : Text → Bool)
      → IsNamed seen g by_string
      → IsNamed
          (λ k. elem k (resource_names rs) || seen k)
          ((added rs g by_string).0)
          ((added rs g by_string).1)
  unfolding add_keys
  add_keys_lem [] g by_string seen h = record {
    same = h.same;
    shaped = h.shaped;
    named = h.named;
    no_edges = h.no_edges;
    known = λ k. unfold elem in h.known k;
  }
  add_keys_lem (r ∷ rs) g by_string seen h =
      let key = resource_key r in
      reordered r rs seen _ _ (
        add_keys_lem rs (Graph.add g (key_string key) key) (put (key_string key) key by_string)
          (λ k. str_eq k (key_string key) || seen k) (add-IsNamed g by_string seen key h))

  -- What the answer says of the resources and of what the edges demand.
  abbrev pub OrderSays : List R → List Edge → Ordering → Type 0
  OrderSays rs es (ordered keys) =
      let order = map key_string keys in
      IsDistinct order
      × ((k : Text) → elem k order ≡ elem k (resource_names rs))
      × IsBehind (demands (resource_names rs) es) [] order
  OrderSays rs es (looped ks) =
      (ks ≢ [])
      × ((k : Text)
          → elem k ks ≡ true
          → (a : Text) × (demands (resource_names rs) es a k ≡ true) × (elem a ks ≡ true))
  OrderSays rs es panicked = ⊥
  OrderSays rs es too_many_rounds = ⊥

  IsBehind-of :
      (before : Text → Text → Bool) (preds : Text → List Text)
      → ((a b : Text) → elem a (preds b) ≡ before a b)
      → (seen ks : List Text) → IsTopological preds seen ks
      → IsBehind before seen ks
  IsBehind-of before preds e seen [] t = tt
  IsBehind-of before preds e seen (k ∷ ks) t =
      (λ a h. t.0 a (e a k ∙ h), IsBehind-of before preds e (k ∷ seen) ks t.1)

  demands-known :
      (xs ys : List Text)
      → ((k : Text) → elem k xs ≡ elem k ys)
      → (es : List Edge) (a b : Text) → demands xs es a b ≡ demands ys es a b
  unfolding demands
  demands-known xs ys h [] a b = refl
  demands-known xs ys h (e ∷ es) a b =
      ground (arith, demands-known xs ys h es a b, h (key_string e.from), h (key_string e.to))

  map-key_at :
      (m : List (Text × Key)) (ks : List Text)
      → ((k : Text) (key : Key) → fetch k m ≡ some key → key_string key ≡ k)
      → ((k : Text) → elem k ks ≡ true → elem k (dict_keys m) ≡ true)
      → map key_string (map (key_at m) ks) ≡ ks
  unfolding elem key_at
  map-key_at m [] named known = refl
  map-key_at m (k ∷ ks) named known = elim (Option-cases (fetch k m)) [
    | inl e ↦ absurd (ground (arith, fetch-ne-none k m, known k, str_eq_iff k k, e))
    | inr (key, e) ↦
        let here : key_string (key_at m k) ≡ k = ground (arith, named k key, e) in
        let rest = map-key_at m ks named (λ j h. known j (ground arith)) in
        ground (arith, here, rest)
  ]

  -- The order of the names.
  abbrev IsResourceOrder : List R → List Edge → List Text → Type 0
  IsResourceOrder rs es order =
      IsDistinct order
      × ((k : Text) → elem k order ≡ elem k (resource_names rs))
      × IsBehind (demands (resource_names rs) es) [] order

  module _ (rs : List R) (es : List Edge) (g g' : Directed Key) (by_string : List (Text × Key))
      (n : IsNamed (λ k. elem k (resource_names rs) || false) g by_string)
      (l : IsLinked g g' (demands (dict_keys g.nodes) es)) where
    member : (k : Text) → elem k (dict_keys g.nodes) ≡ elem k (resource_names rs)
    member k = ground (arith, n.known k)

    has-member : (k : Text) → has g' k ≡ elem k (resource_names rs)
    unfolding has
    has-member k = ap (λ ns. elem k (dict_keys ns)) l.same_nodes ∙ member k

    preds : (a b : Text) → elem a (predecessors g' b) ≡ demands (resource_names rs) es a b
    unfolding predecessors elem
    preds a b = ground (
      arith,
      l.edges a b,
      n.no_edges b,
      demands-known (dict_keys g.nodes) (resource_names rs) member es a b,
    )

    says_sorting :
        (answer : Sorting) → Promise g' answer → OrderSays rs es (key_order by_string answer)
    unfolding key_order
    says_sorting (sorted out) (distinct, all, topological) =
        let here : (k : Text) → elem k out ≡ elem k (resource_names rs) =
          (λ k. all k ∙ has-member k) in
        let found : (k : Text) → elem k out ≡ true → elem k (dict_keys by_string) ≡ true =
          (λ k h. ap (λ m. elem k (dict_keys m)) n.same ∙ (member k ∙ (sym (here k) ∙ h))) in
        subst (IsResourceOrder rs es) (sym (map-key_at by_string out n.named found)) (
          distinct,
          here,
          IsBehind-of (demands (resource_names rs) es) (predecessors g') preds [] out topological,
        )
    says_sorting (cycle ks) (some_left, back) =
        (some_left, λ k h. let (a, e, i) = back k h in (a, sym (preds a k) ∙ e, i))
    says_sorting ran_out bad = absurd bad

  -- For every program `ResourceOrder` answers in one of two ways. It returns keys whose names are different and are
  -- those of the resources, each behind all that the edges between resources demand before it, those of expansions
  -- left aside. Or it names at least one resource, such that each named has one before it that is named too.
  -- The connections never panic, and the rounds are enough.
  pub resource_order-Says :
      (p : Program I R)
      → OrderSays
          (resources intent_key resource_key p)
          (edges intent_key resource_key p)
          (resource_order intent_key resource_key p)
  unfolding resource_order
  resource_order-Says p =
      let rs = resources intent_key resource_key p in
      let es = edges intent_key resource_key p in
      let s = added rs Graph.empty [] in
      let n = add_keys_lem rs Graph.empty [] (λ k. false) empty-IsNamed in
      let (g', linked, l) = link_edges_lem es s.0 in
      let sorts = topo_sort-Promise g' (l.shaped n.shaped) in
      subst
        (λ joined.
          OrderSays rs es
            (elim joined [ none ↦ panicked | some g ↦ key_order s.1 (Graph.topo_sort g) ]))
        (sym linked) (says_sorting rs es s.0 g' s.1 n l (Graph.topo_sort g') sorts)

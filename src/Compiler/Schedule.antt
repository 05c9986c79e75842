-- ===== src/Compiler/Schedule.antt =====
-- internal/compiler/compiler.go: what `Schedule` promises.
use cloudcc.Base.{
  ◌≡◌, refl, true, false, Option, none, some, List, [], ◌∷◌, arith, Text, elem, dict_keys, fetch,
  str_eq_iff, Option-cases, Bool-cases, inl, inr, ◌∙◌, sym, Within, All, ◌≢◌, Within, IsDistinct,
  subst, fetch-none, fetch-ne-none, ap,
}
use cloudcc.Graph.{
  Directed, has, adjacent, predecessors, topo_sort, Sorting, sorted, cycle, ran_out,
}
use cloudcc.Graph.Kahn.{IsTopological}
use cloudcc.Graph.Topo.{Promise, topo_sort-Promise, IsOrder}
use cloudcc.Compiler.Defs.{
  Plugin, Result, ok, err, duplicate_plugin, unknown_plugin, plugin_cycle, missing_endpoint,
  nil_plugin, too_many_rounds, register, link, sort_plugins, answer, pick, schedule, Registry,
  new_registry, ◌>>=◌,
}
use cloudcc.Compiler.Register.{
  names, find, IsConsistent, new_registry-IsConsistent, register-IsConsistent, fetch-register,
  register-eq-err, register_distinct,
}
use cloudcc.Compiler.Link.{depends, LinkPromise, link-Promise}
use cloudcc.Graph.Linked.{IsLinked}

-- Every plugin stands behind the plugins that it depends on.
abbrev pub IsOrdered : {C : Type 0} → List Text → List (Plugin C) → Type 0
IsOrdered seen [] = Unit {0}
IsOrdered seen (p ∷ ps) = Within p.deps seen × IsOrdered (p.name ∷ seen) ps

-- The specification of the answer, for each outcome.
abbrev pub ScheduleSays : {C : Type 0} → List (Plugin C) → Result (List (Plugin C)) → Type 0
ScheduleSays ps (ok out) =
    IsDistinct (names out) × ((k : Text) → find k out ≡ find k ps) × IsOrdered [] out
ScheduleSays ps (err (duplicate_plugin n)) = ¬ IsDistinct (names ps) × (elem n (names ps) ≡ true)
ScheduleSays ps (err (unknown_plugin p d)) = (depends ps d p ≡ true) × (find d ps ≡ none)
ScheduleSays ps (err (plugin_cycle ks)) =
    (ks ≢ [])
    × ((k : Text) → elem k ks ≡ true → (p : Text) × (depends ps p k ≡ true) × (elem p ks ≡ true))
ScheduleSays ps (err missing_endpoint) = ⊥
ScheduleSays ps (err nil_plugin) = ⊥
ScheduleSays ps (err too_many_rounds) = ⊥

module _ {C : Type 0} where
  has-find : (k : Text) (ps : List (Plugin C)) → elem k (names ps) ≡ true → find k ps ≢ none
  unfolding elem
  has-find k [] h = cc
  has-find k (p ∷ ps) h = ground (arith, has-find k ps)

  fetch-elem :
      (k : Text) (m : List (Text × Plugin C)) → fetch k m ≢ none → elem k (dict_keys m) ≡ true
  fetch-elem k m h = ground (arith, fetch-none k m)

  -- The last loop finds the node of every name.
  pick_lem :
      (ks : List Text) (m : List (Text × Plugin C))
      → ((k : Text) (p : Plugin C) → fetch k m ≡ some p → p.name ≡ k)
      → ((k : Text) → elem k ks ≡ true → fetch k m ≢ none)
      → (out : List (Plugin C)) × (pick ks m ≡ ok out)
        × (names out ≡ ks)
        × ((k : Text) → elem k ks ≡ true → find k out ≡ fetch k m)
        × All (λ p. fetch p.name m ≡ some p) out
  unfolding pick elem
  pick_lem [] m named found = ([], refl, refl, λ k h. cc, tt)
  pick_lem (k ∷ ks) m named found = elim (Option-cases (fetch k m)) [
    | inl e ↦ absurd (found k (ground (arith, str_eq_iff k k)) e)
    | inr (p, e) ↦
        let (out, picked, same, all, real) = pick_lem ks m named (λ j h. found j (ground arith)) in
        let called = named k p e in
        (
          p ∷ out,
          ground arith,
          cc,
          λ j h. ground (arith, all j, str_eq_iff j p.name, str_eq_iff j k),
          (simp (called, e), real),
        )
  ]

  find-none : (k : Text) (ps : List (Plugin C)) → elem k (names ps) ≡ false → find k ps ≡ none
  unfolding elem
  find-none k [] h = refl
  find-none k (p ∷ ps) h = ground (arith, find-none k ps)

  All-real :
      (f : Text → Option (Plugin C)) (g : Text → Option (Plugin C)) (out : List (Plugin C))
      → ((k : Text) → f k ≡ g k)
      → All (λ p. f p.name ≡ some p) out
      → All (λ p. g p.name ≡ some p) out
  All-real f g [] same h = tt
  All-real f g (p ∷ out) same h = (sym (same p.name) ∙ h.0, All-real f g out same h.1)

  find-depends :
      (k d : Text) (ps : List (Plugin C)) {p : Plugin C}
      → find k ps ≡ some p
      → elem d p.deps ≡ true
      → depends ps d k ≡ true
  unfolding depends
  find-depends k d [] h i = cc
  find-depends k d (q ∷ ps) {p} h i = ground (arith, find-depends k d ps {p = p})

  -- An order of the names is an order of the plugins that bear them.
  IsOrdered-of :
      (ps : List (Plugin C)) (preds : Text → List Text)
      → ((a b : Text) → elem a (preds b) ≡ depends ps a b)
      → (seen : List Text) (out : List (Plugin C)) → IsTopological preds seen (names out)
      → All (λ p. find p.name ps ≡ some p) out
      → IsOrdered seen out
  IsOrdered-of ps preds edges seen [] t real = tt
  IsOrdered-of ps preds edges seen (p ∷ out) t real = (
    λ d h. t.0 d (edges d p.name ∙ find-depends p.name d ps real.0 h),
    IsOrdered-of ps preds edges (p.name ∷ seen) out t.1 real.1,
  )

  -- The state after the two loops.
  module _ (ps : List (Plugin C)) (r : Registry C)
      (registered : register ps new_registry ≡ ok r) where
    consistent : IsConsistent r
    consistent = register-IsConsistent ps new_registry new_registry-IsConsistent registered

    by_name_lem : (k : Text) → fetch k r.by_name ≡ find k ps
    unfolding fetch
    by_name_lem k = fetch-register ps new_registry k registered

    has-find-true : (k : Text) → has r.graph k ≡ true → find k ps ≢ none
    unfolding has
    has-find-true k h = ground (arith, consistent.same, by_name_lem k, fetch-ne-none k r.by_name)

    has-find-false : (k : Text) → has r.graph k ≡ false → find k ps ≡ none
    unfolding has
    has-find-false k h = ground (arith, consistent.same, by_name_lem k, fetch-none k r.by_name)

    names_known : (k : Text) → elem k (names ps) ≡ true → has r.graph k ≡ true
    unfolding has
    names_known k h =
        ground (arith, consistent.same, by_name_lem k, fetch-elem k r.by_name, has-find k ps h)

    module _ (g : Directed (Plugin C)) (linked : IsLinked r.graph g (depends ps)) where
      edges : (a b : Text) → elem a (adjacent g.rev b) ≡ depends ps a b
      unfolding elem
      edges a b = ground (arith, linked.edges a b, consistent.no_edges b)

      has-linked : (k : Text) → has g k ≡ has r.graph k
      unfolding has
      has-linked k = rw linked.same_nodes

      picked : (ks : List Text) → IsOrder g ks → ScheduleSays ps (pick ks r.by_name)
      unfolding predecessors
      picked ks (distinct, all, topological) =
          let (out, e, same, found, real) =
            pick_lem ks r.by_name consistent.named
              (λ k h. ground (arith, by_name_lem k, has-find-true k, all k, has-linked k)) in
          subst (ScheduleSays ps) (sym e) (
            subst IsDistinct (sym same) distinct,
            λ k. elim (Bool-cases (elem k ks)) [
              | inl inside ↦ found k inside ∙ by_name_lem k
              | inr outside ↦
                  find-none k out (ap (elem k) same ∙ outside)
                  ∙ sym (has-find-false k (ground (arith, all k, has-linked k)))
            ],
            IsOrdered-of ps (λ k. adjacent g.rev k) edges [] out
                (subst (IsTopological (λ k. adjacent g.rev k) []) (sym same) topological)
                (All-real (λ k. fetch k r.by_name) (λ k. find k ps) out by_name_lem real),
          )

      sorted_says :
          (s : Sorting) → Promise g s → ScheduleSays ps (answer s >>= λ out. pick out r.by_name)
      unfolding answer predecessors
      sorted_says (sorted out) h = picked out h
      sorted_says (cycle ks) h =
          (h.0, λ k i. let (p, before, inside) = h.1 k i in (p, sym (edges p k) ∙ before, inside))
      sorted_says ran_out h = absurd h

    linked_says :
        (l : Result (Directed (Plugin C)))
        → LinkPromise r.graph (depends ps) l
        → ScheduleSays ps (l >>= λ g. sort_plugins g >>= λ out. pick out r.by_name)
    unfolding sort_plugins
    linked_says (ok g) h =
        sorted_says g h (topo_sort g) (topo_sort-Promise g (h.shaped consistent.shaped))
    linked_says (err e) h =
        subst (λ x. ScheduleSays ps (err x)) (sym h.error)
          (h.declared, has-find-false h.dep h.unknown)

  registered_says :
      (ps : List (Plugin C)) (m : Result (Registry C))
      → register ps new_registry ≡ m
      → ScheduleSays ps
          (m >>= λ r. link ps r.graph >>= λ g. sort_plugins g >>= λ out. pick out r.by_name)
  unfolding fetch
  registered_says ps (ok r) e =
      linked_says ps r e (link ps r.graph) (link-Promise ps r.graph (names_known ps r e))
  registered_says ps (err x) e =
      let (n, same, inside) = register-eq-err ps new_registry e in
      subst (λ y. ScheduleSays ps (err y)) (sym same)
        (λ d. let (r, fine) = register_distinct ps new_registry d (λ k h. refl) in cc, inside)

  -- For every list of plugins `Schedule` answers in one of four ways. It returns a schedule: its names
  -- are different, each name finds in it the plugin that the list has under it, and every plugin stands
  -- behind all its dependencies. Or it names a plugin name that is used twice; or a declared dependency
  -- that no plugin bears; or at least one plugin, such that each plugin named depends on a named one. It neither
  -- panics in `Connect`, nor schedules a nil plugin, nor runs out of rounds.
  pub schedule-Says : (ps : List (Plugin C)) → ScheduleSays ps (schedule ps)
  unfolding schedule
  schedule-Says ps = registered_says ps (register ps new_registry) refl

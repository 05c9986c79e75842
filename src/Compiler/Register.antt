-- ===== src/Compiler/Register.antt =====
-- internal/compiler/compiler.go: the first loop of `Schedule`, which refuses a name used twice.
use cloudcc.Base.{
  ◌≡◌, refl, true, Option, none, some, List, [], ◌∷◌, map, arith, Text, str_eq, elem, put, fetch,
  if◌then◌else◌, str_eq_iff, fetch-put, IsDistinct, Option-cases, inl, inr, ◌∙◌,
}
use cloudcc.Graph.{add, adjacent}
use cloudcc.Graph.Shape.{IsShaped, empty-IsShaped, add-IsShaped, adjacent-add}
use cloudcc.Compiler.Defs.{
  Plugin, ok, err, Error, duplicate_plugin, Registry, register, new_registry,
}

-- The plugin of a list that bears a name.
abbrev pub find : {C : Type 0} → Text → List (Plugin C) → Option (Plugin C)
find k [] = none
find k (p ∷ ps) = if str_eq k p.name then some p else find k ps

abbrev pub names : {C : Type 0} → List (Plugin C) → List Text
names ps = map (λ p. p.name) ps

module _ {C : Type 0} where
  -- What the first loop keeps about the map and the graph.
  pub record IsConsistent (r : Registry C) : Type 0 where
    pub same : r.by_name ≡ r.graph.nodes
    pub shaped : IsShaped r.graph
    pub named : (k : Text) (p : Plugin C) → fetch k r.by_name ≡ some p → p.name ≡ k
    pub no_edges : (k : Text) → adjacent r.graph.rev k ≡ []

  pub new_registry-IsConsistent : IsConsistent (new_registry {C = C})
  unfolding fetch
  new_registry-IsConsistent = record {
    same = refl;
    shaped = empty-IsShaped;
    named = λ k p h. cc;
    no_edges = λ k. refl;
  }

  abbrev step : Registry C → Plugin C → Registry C
  step r p = record { by_name = put p.name p r.by_name; graph = add r.graph p.name p }

  step-IsConsistent : (r : Registry C) (p : Plugin C) → IsConsistent r → IsConsistent (step r p)
  step-IsConsistent r p c = record {
    same = unfold add in ground (arith, c.same);
    shaped = add-IsShaped r.graph p.name p c.shaped;
    named =
        λ k q h. ground (arith, fetch-put k p.name p r.by_name, c.named k q, str_eq_iff k p.name);
    no_edges = λ k. (adjacent-add r.graph p.name p c.shaped k).1 ∙ c.no_edges k;
  }

  -- The registry that a successful first loop returns.
  pub register-IsConsistent :
      (ps : List (Plugin C)) (r : Registry C) {r' : Registry C}
      → IsConsistent r
      → register ps r ≡ ok r'
      → IsConsistent r'
  unfolding register
  register-IsConsistent [] r c h = ground arith
  register-IsConsistent (p ∷ ps) r c h =
      register-IsConsistent ps (step r p) (step-IsConsistent r p c) (ground arith)

  -- It finds under each name the plugin of the list that bears it.
  pub fetch-register :
      (ps : List (Plugin C)) (r : Registry C) {r' : Registry C} (k : Text)
      → register ps r ≡ ok r'
      → fetch k r'.by_name ≡ elim (fetch k r.by_name) [ some q ↦ some q | none ↦ find k ps ]
  unfolding register
  fetch-register [] r k h = ground arith
  fetch-register (p ∷ ps) r {r'} k h = ground (
    arith,
    fetch-register ps (step r p) {r' = r'} k,
    fetch-put k p.name p r.by_name,
    str_eq_iff k p.name,
  )

  -- Names that are different, and not taken yet, are all accepted.
  pub register_distinct :
      (ps : List (Plugin C)) (r : Registry C)
      → IsDistinct (names ps)
      → ((k : Text) → elem k (names ps) ≡ true → fetch k r.by_name ≡ none)
      → (r' : Registry C) × (register ps r ≡ ok r')
  unfolding register elem
  register_distinct [] r d free = (r, refl)
  register_distinct (p ∷ ps) r d free =
      let (r', e) =
        register_distinct ps (step r p) d.1
          (λ k h. ground (arith, fetch-put k p.name p r.by_name, free k, str_eq_iff k p.name)) in
      (r', ground (arith, free p.name, str_eq_iff p.name p.name))

  -- A refused list names a plugin that stands in it, and its names are not all different.
  pub register-eq-err :
      (ps : List (Plugin C)) (r : Registry C) {e : Error}
      → register ps r ≡ err e
      → (n : Text) × (e ≡ duplicate_plugin n) × (elem n (names ps) ≡ true)
  unfolding register elem
  register-eq-err [] r h = cc
  register-eq-err (p ∷ ps) r h = elim (Option-cases (fetch p.name r.by_name)) [
    | inr (q, taken) ↦ (p.name, ground arith, ground (arith, str_eq_iff p.name p.name))
    | inl free ↦
        let (n, e, inside) = register-eq-err ps (step r p) (ground arith) in (n, e, ground arith)
  ]

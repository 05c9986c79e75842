-- ===== src/Compiler/Defs.antt =====
-- internal/compiler/compiler.go: `Plugin`, `Schedule`, `NewCompiler`, `Order` and `Compile`, over
-- an abstract context.
use cloudcc.Base.{true, false, Option, none, some, List, [], ◌∷◌, ◌++◌, map, Text, put, fetch}
use cloudcc.Graph.{Directed, empty, add, has, connect, topo_sort, Sorting, sorted, cycle, ran_out}

-- The interface `Plugin`. `transform` gives the error, if any, and the context that it left behind.
pub record Plugin (C : Type 0) : Type 0 where
  pub name : Text
  pub deps : List Text
  pub transform : C → Option Text × C

-- The first three are the errors that `Schedule` returns. The others stand for the panic of
-- `Connect`, for a nil plugin in the schedule and for a sort that does not end.
pub data Error : Type 0 where
  duplicate_plugin : Text → Error
  unknown_plugin : Text → Text → Error
  plugin_cycle : List Text → Error
  missing_endpoint nil_plugin too_many_rounds : Error

-- What a function of the package returns: an error, or a value.
pub data Result (A : Type 0) : Type 0 where
  err : Error → Result A
  ok : A → Result A

-- The steps of `Schedule` end at the first error.
infixl 5 ◌>>=◌
abbrev pub ◌>>=◌ : {A B : Type 0} → Result A → (A → Result B) → Result B
r >>= next = elim r [ err failure ↦ err failure | ok value ↦ next value ]

-- The map of names and the graph that the first loop fills.
pub record Registry (C : Type 0) : Type 0 where
  pub by_name : List (Text × Plugin C)
  pub graph : Directed (Plugin C)

-- The error that `Schedule` makes of a failed sort.
unfoldable pub answer : Sorting → Result (List Text)
answer (sorted out) = ok out
answer (cycle stuck) = err (plugin_cycle stuck)
answer ran_out = err too_many_rounds

module _ {C : Type 0} where
  abbrev pub new_registry : Registry C
  new_registry = record { by_name = []; graph = empty }

  unfoldable pub register : List (Plugin C) → Registry C → Result (Registry C)
  register [] r = ok r
  register (p ∷ ps) r = elim (fetch p.name r.by_name) [
    | some _ ↦ err (duplicate_plugin p.name)
    | none ↦ register ps (record { by_name = put p.name p r.by_name; graph = add r.graph p.name p })
  ]

  unfoldable pub link_deps : Text → List Text → Directed (Plugin C) → Result (Directed (Plugin C))
  link_deps name [] g = ok g
  link_deps name (dep ∷ deps) g = elim (has g dep) [
    | false ↦ err (unknown_plugin name dep)
    | true ↦ elim (connect g dep name) [
      | none ↦ err missing_endpoint
      | some g' ↦ link_deps name deps g'
    ]
  ]

  unfoldable pub link : List (Plugin C) → Directed (Plugin C) → Result (Directed (Plugin C))
  link [] g = ok g
  link (p ∷ ps) g = do g' ← link_deps p.name p.deps g; link ps g'

  unfoldable pub sort_plugins : Directed (Plugin C) → Result (List Text)
  unfolding answer
  sort_plugins g = answer (topo_sort g)

  unfoldable pub pick : List Text → List (Text × Plugin C) → Result (List (Plugin C))
  pick [] m = ok []
  pick (k ∷ ks) m =
      let rest = pick ks m in
      elim (fetch k m) [ none ↦ err nil_plugin | some p ↦ rest >>= λ ps. ok (p ∷ ps) ]

  unfoldable pub schedule : List (Plugin C) → Result (List (Plugin C))
  unfolding register link_deps link sort_plugins pick topo_sort add connect fetch put has
  schedule plugins = do
    r ← register plugins new_registry
    g ← link plugins r.graph
    out ← sort_plugins g
    pick out r.by_name

pub record Compiler (C : Type 0) : Type 0 where
  pub ordered : List (Plugin C)

-- What `Compile` answers: the context at the end with the names that `Trace` saw, and the plugin
-- that failed with its error.
pub data Outcome (C : Type 0) : Type 0 where
  finished : C → List Text → Outcome C
  aborted : (failed error : Text) → C → List Text → Outcome C

module _ {C : Type 0} where
  unfoldable pub new_compiler : List (Plugin C) → Result (Compiler C)
  unfolding schedule
  new_compiler plugins = schedule plugins >>= λ ps. ok (record { ordered = ps })

  unfoldable pub order : Compiler C → List Text
  order c = map (λ p. p.name) c.ordered

  -- The loop of `Compile`; `trace` is what the hook has been called with so far.
  unfoldable pub run : List (Plugin C) → C → List Text → Outcome C
  run [] ctx trace = finished ctx trace
  run (p ∷ ps) ctx trace =
      let (error, ctx') = p.transform ctx in
      let trace' = trace ++ p.name ∷ [] in
      elim error [ none ↦ run ps ctx' trace' | some e ↦ aborted p.name e ctx' trace' ]

  unfoldable pub compile : Compiler C → C → Outcome C
  unfolding run
  compile c ctx = run c.ordered ctx []

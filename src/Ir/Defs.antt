-- ===== src/Ir/Defs.antt =====
-- internal/ir/ir.go: the program. Intents and resources are types of the model's user with a function that gives
-- the key of each, as the interfaces of the source have a method for it.
use cloudcc.Base.{
  Bool, ◌||◌, ◌&&◌, Option, none, some, List, [], ◌∷◌, ◌++◌, Text, codes, str_eq, if◌then◌else◌,
  put, fetch, sort_strings, dict_keys, keep_if, map,
}
use cloudcc.Graph
use cloudcc.Graph.{Directed, Sorting, sorted, cycle, ran_out}

pub record Key : Type 0 where
  pub kind : Text
  pub id : Text

unfoldable pub key_string : Key → Text
key_string k = k.kind ++ b'/' ∷ k.id

abbrev pub no_key : Key
no_key = record { kind = []; id = [] }

abbrev pub is_zero_key : Key → Bool
is_zero_key k = str_eq k.kind [] && str_eq k.id []

abbrev pub edge_depends_on : Text
edge_depends_on = codes "depends_on"

abbrev pub edge_uses : Text
edge_uses = codes "uses"

abbrev pub edge_exposes : Text
edge_exposes = codes "exposes"

abbrev pub edge_resolves_to : Text
edge_resolves_to = codes "resolves_to"

abbrev pub edge_publishes : Text
edge_publishes = codes "publishes"

abbrev pub edge_subscribes : Text
edge_subscribes = codes "subscribes"

abbrev pub edge_calls : Text
edge_calls = codes "calls"

pub record Edge : Type 0 where
  pub from : Key
  pub to : Key
  pub kind : Text

unfoldable pub edge_key : Edge → Text
unfolding key_string
edge_key e = e.kind ++ codes "|" ++ key_string e.from ++ codes "|" ++ key_string e.to

pub record Program (I R : Type 0) : Type 0 where
  pub intents : Directed I
  pub resources : Directed R
  pub edges : List (Text × Edge)

-- What `ResourceOrder` answers. `panicked` is the panic of the graph's `Connect`.
pub data Ordering : Type 0 where
  ordered : List Key → Ordering
  looped : List Text → Ordering
  panicked too_many_rounds : Ordering

abbrev same_key : Key → Key → Bool
same_key a b = str_eq a.kind b.kind && str_eq a.id b.id

-- `kind == "" || e.Kind == kind`.
abbrev is_of_kind : Text → Edge → Bool
is_of_kind kind e = str_eq kind [] || str_eq e.kind kind

-- The edges under a list of keys.
unfoldable pub edges_at : List (Text × Edge) → List Text → List Edge
unfolding fetch
edges_at m [] = []
edges_at m (k ∷ ks) =
    let rest = edges_at m ks in elim (fetch k m) [ none ↦ rest | some e ↦ e ∷ rest ]

-- The loops of `ResourceOrder`. An edge to a resource runs against its direction: what is used comes first.
unfoldable pub link_edges : List Edge → Directed Key → Option (Directed Key)
link_edges [] g = some g
link_edges (e ∷ es) g =
    if str_eq e.kind edge_resolves_to
    then link_edges es g
    else if Graph.has g (key_string e.from) && Graph.has g (key_string e.to)
    then elim (Graph.connect g (key_string e.to) (key_string e.from)) [
      | none ↦ none
      | some g' ↦ link_edges es g'
    ]
    else link_edges es g

-- `byString[k]`, which is the zero key where `k` is missing.
unfoldable pub key_at : List (Text × Key) → Text → Key
key_at by_string k = elim (fetch k by_string) [ none ↦ no_key | some key ↦ key ]

unfoldable pub key_order : List (Text × Key) → Sorting → Ordering
key_order by_string (sorted order) = ordered (map (key_at by_string) order)
key_order by_string (cycle stuck) = looped stuck
key_order by_string ran_out = too_many_rounds

module _ {I R : Type 0} (intent_key : I → Key) (resource_key : R → Key) where
  abbrev pub new_program : Program I R
  new_program = record { intents = Graph.empty; resources = Graph.empty; edges = [] }

  unfoldable pub add_intent : Program I R → I → I × Program I R
  add_intent p i =
      let key = key_string (intent_key i) in
      elim (Graph.get p.intents key) [
        | some existing ↦ (existing, p)
        | none ↦ (i, record p { intents = Graph.add p.intents key i })
      ]

  abbrev pub intent : Program I R → Key → Option I
  intent p k = Graph.get p.intents (key_string k)

  abbrev pub intents : Program I R → List I
  intents p = Graph.nodes p.intents

  unfoldable pub intents_of_kind : Program I R → Text → List I
  intents_of_kind p kind = keep_if (λ i. str_eq (intent_key i).kind kind) (Graph.nodes p.intents)

  unfoldable pub add_resource : Program I R → R → R × Program I R
  add_resource p r =
      let key = key_string (resource_key r) in
      elim (Graph.get p.resources key) [
        | some existing ↦ (existing, p)
        | none ↦ (r, record p { resources = Graph.add p.resources key r })
      ]

  abbrev pub resource : Program I R → Key → Option R
  resource p k = Graph.get p.resources (key_string k)

  abbrev pub resources : Program I R → List R
  resources p = Graph.nodes p.resources

  unfoldable pub connect : Program I R → Key → Key → Text → Program I R
  connect p from to kind =
      let e : Edge = record { from = from; to = to; kind = kind } in
      record p { edges = put (edge_key e) e p.edges }

  unfoldable pub edges : Program I R → List Edge
  unfolding edges_at sort_strings
  edges p = edges_at p.edges (sort_strings (dict_keys p.edges))

  unfoldable pub edges_from : Program I R → Key → Text → List Edge
  edges_from p from kind = keep_if (λ e. same_key e.from from && is_of_kind kind e) (edges p)

  unfoldable pub edges_to : Program I R → Key → Text → List Edge
  edges_to p to kind = keep_if (λ e. same_key e.to to && is_of_kind kind e) (edges p)

  targets : Program I R → List Edge → List R
  targets p [] = []
  targets p (e ∷ es) =
      let rest = targets p es in elim (resource p e.to) [ some r ↦ r ∷ rest | none ↦ rest ]

  unfoldable pub resolved_from : Program I R → Key → List R
  unfolding targets
  resolved_from p k = targets p (edges_from p k edge_resolves_to)

  unfoldable pub resolve : Program I R → Key → R → R × Program I R
  unfolding add_resource connect
  resolve p k r =
      let (added, p') = add_resource p r in
      (added, connect p' k (resource_key added) edge_resolves_to)

  -- The first loop of `ResourceOrder`: the graph of the keys, and the map of their names.
  unfoldable pub add_keys :
      List R → Directed Key × List (Text × Key) → Directed Key × List (Text × Key)
  add_keys [] s = s
  add_keys (r ∷ rs) (g, by_string) =
      let key = resource_key r in
      add_keys rs (Graph.add g (key_string key) key, put (key_string key) key by_string)

  unfoldable pub resource_order : Program I R → Ordering
  unfolding add_keys link_edges key_order
  resource_order p =
      let (g, by_string) = add_keys (resources p) (Graph.empty, []) in
      elim (link_edges (edges p) g) [
        | none ↦ panicked
        | some g' ↦ key_order by_string (Graph.topo_sort g')
      ]

-- ===== src/Graph/Defs.antt =====
-- internal/graph/graph.go: the type `Directed` and its operations.
use cloudcc.Base.{
  ℕ, zero, suc, Bool, ◌||◌, Option, none, some, List, [], ◌∷◌, ◌++◌, Text, str_eq, str_lt, elem,
  length, take, drop, get_elem?, keep_if, sort_strings, dict_keys, put, fetch, update, ◌==◌,
  if◌then◌else◌, not,
}
use cloudcc.Base.Int.{ℤ, pos, decrement, is_zero, is_positive}

pub record Directed {ℓ} (N : Type ℓ) : Type ℓ where
  pub nodes : List (Text × N)
  pub order : Text → Option (List Text)
  pub rev : Text → Option (List Text)

-- The slice that a map of slices holds at a key.
abbrev pub adjacent : (Text → Option (List Text)) → Text → List Text
adjacent f k = elim (f k) [ none ↦ [] | some l ↦ l ]

-- `sort.SearchStrings`: the first index whose string is not below `v`. The slice is ascending at
-- every call, where the library's binary search finds the same index.
unfoldable pub search_strings : List Text → Text → ℕ
search_strings [] v = 0
search_strings (x ∷ xs) v = let rest = search_strings xs v in if str_lt x v then suc rest else 0

unfoldable pub insert_sorted : List Text → Text → List Text
unfolding search_strings
insert_sorted s v =
    let i = search_strings s v in
    let inserted = take i s ++ v ∷ drop i s in
    elim (get_elem? s i) [ some x ↦ if str_eq x v then s else inserted | none ↦ inserted ]

-- The `none` of a connection is the panic about a missing endpoint.
module _ {ℓ} {N : Type ℓ} where
  abbrev pub empty : Directed N
  empty = record { nodes = []; order = λ _. none; rev = λ _. none }

  unfoldable pub has : Directed N → Text → Bool
  unfolding elem
  has g key = elem key (dict_keys g.nodes)

  unfoldable pub get : Directed N → Text → Option N
  unfolding fetch
  get g key = fetch key g.nodes

  unfoldable pub add : Directed N → Text → N → Directed N
  unfolding put update
  add g key n =
      let g' = record g { nodes = put key n g.nodes } in
      elim (g.order key) [
        | some _ ↦ g'
        | none ↦ record g' {
          order = update key (some []) g.order;
          rev = update key (some []) g.rev;
        }
      ]

  unfoldable pub len : Directed N → ℕ
  len g = length g.nodes

  unfoldable pub keys : Directed N → List Text
  unfolding sort_strings
  keys g = sort_strings (dict_keys g.nodes)

  -- Every key is present, so the lookup of `g.nodes[k]` finds a node.
  fetch_all : List (Text × N) → List Text → List N
  unfolding fetch
  fetch_all m [] = []
  fetch_all m (k ∷ ks) =
      let rest = fetch_all m ks in elim (fetch k m) [ none ↦ rest | some n ↦ n ∷ rest ]

  unfoldable pub nodes : Directed N → List N
  unfolding keys fetch_all
  nodes g = fetch_all g.nodes (keys g)

  unfoldable pub successors : Directed N → Text → List Text
  successors g key = adjacent g.order key

  unfoldable pub predecessors : Directed N → Text → List Text
  predecessors g key = adjacent g.rev key

  unfoldable pub connect : Directed N → Text → Text → Option (Directed N)
  unfolding has update insert_sorted
  connect g from to =
      if not (has g from) || not (has g to)
      then none
      else some (record g {
        order = update from (some (insert_sorted (adjacent g.order from) to)) g.order;
        rev = update to (some (insert_sorted (adjacent g.rev to) from)) g.rev;
      })

-- The inner loop: every successor of a placed node has one unplaced predecessor less.
unfoldable pub release : List Text → (Text → ℤ) → List Text → (Text → ℤ) × List Text
release [] indeg ready = (indeg, ready)
release (s ∷ ss) indeg ready =
    let d = decrement (indeg s) in
    release ss (update s d indeg) (if is_zero d then insert_sorted ready s else ready)

-- What `TopoSort` answers: the order, the error with the unresolved nodes, or more rounds than the
-- fuel of the model allows.
pub data Sorting : Type 0 where
  sorted : List Text → Sorting
  cycle : List Text → Sorting
  ran_out : Sorting

-- The state of the outer loop.
pub record Kahn : Type 0 where
  pub out : List Text
  pub ready : List Text
  pub indeg : Text → ℤ

module _ {ℓ} {N : Type ℓ} (g : Directed N) where
  unfoldable pub start : Kahn
  start =
      let indeg = λ (k : Text). pos (length (adjacent g.rev k)) in
      record {
        out = [];
        ready = sort_strings (keep_if (λ k. is_zero (indeg k)) (keys g));
        indeg = indeg;
      }

  -- One round: `k` is the head of the queue and `rest` its tail.
  unfoldable pub round : Kahn → Text → List Text → Kahn
  round s k rest =
      let (indeg, ready) = release (adjacent g.order k) s.indeg rest in
      record { out = s.out ++ k ∷ []; ready = ready; indeg = indeg }

  unfoldable pub loop : ℕ → Kahn → Option Kahn
  loop zero s = elim s.ready [ [] ↦ some s | _ ∷ _ ↦ none ]
  loop (suc fuel) s = elim s.ready [ [] ↦ some s | k ∷ rest ↦ loop fuel (round s k rest) ]

  unfoldable pub finish : Kahn → Sorting
  finish s =
      if length s.out == length g.nodes
      then sorted s.out
      else cycle (keep_if (λ k. is_positive (s.indeg k)) (keys g))

  -- As much fuel as there are nodes.
  unfoldable pub topo_sort : Sorting
  unfolding start loop finish round release update decrement insert_sorted keys
  topo_sort = elim (loop (length g.nodes) start) [ none ↦ ran_out | some s ↦ finish s ]

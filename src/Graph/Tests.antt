-- ===== src/Graph/Tests.antt =====
-- internal/graph/graph.go on small graphs.
use cloudcc.Base.{
  ℕ, ◌≡◌, refl, ◌<◌, true, false, some, none, List, [], ◌∷◌, arith, Text, codes, elem, str_eq,
  str_lt, ◌∙◌, ◌↔◌, ◌⊎◌, if◌then◌else◌, ◌||◌, ◌&&◌, str_eq_iff,
}
use cloudcc.Graph.Defs.{
  Directed, empty, add, connect, has, keys, nodes, get, len, topo_sort, sorted, cycle, successors,
  adjacent,
}
use cloudcc.Graph.Shape.{
  IsShaped, empty-IsShaped, add-IsShaped, adjacent-add, connect-IsShaped, connect-eq-none,
  elem-order-connect, elem-connect,
}
use cloudcc.Graph.Topo.{Promise, topo_sort-Promise, topo_sort_acyclic}

abbrev a : Text
a = codes "a"

abbrev b : Text
b = codes "b"

abbrev c : Text
c = codes "c"

abbrev bare : Directed ℕ
bare = add (add (add empty c 3) a 1) b 2

abbrev joined : Directed ℕ → Text → Text → Directed ℕ
joined g from to = elim (connect g from to) [ some g' ↦ g' | none ↦ g ]

-- c → a, c → b
abbrev fork : Directed ℕ
fork = joined (joined bare c b) c a

-- c → a, c → b, a → b, b → a
abbrev ring : Directed ℕ
ring = joined (joined fork a b) b a

program : Unit {0}
unfolding topo_sort has add connect nodes get len str_eq str_lt elem
program = tt

bare-keys : keys bare ≡ a ∷ b ∷ c ∷ []
unfolding program
bare-keys = refl

bare-nodes : nodes bare ≡ 1 ∷ 2 ∷ 3 ∷ []
unfolding program
bare-nodes = refl

fork-topo_sort : topo_sort fork ≡ sorted (c ∷ a ∷ b ∷ [])
unfolding program
fork-topo_sort = refl

ring-topo_sort : topo_sort ring ≡ cycle (a ∷ b ∷ [])
unfolding program
ring-topo_sort = refl

fork-get : get fork b ≡ some 2
unfolding program
fork-get = refl

missing_endpoint : connect fork a (codes "z") ≡ none
unfolding program
missing_endpoint = refl

bare-IsShaped : IsShaped bare
bare-IsShaped = add-IsShaped _ b 2 (add-IsShaped _ a 1 (add-IsShaped empty c 3 empty-IsShaped))

half-IsShaped : IsShaped (joined bare c b)
unfolding program
half-IsShaped = connect-IsShaped bare c b refl bare-IsShaped

fork-IsShaped : IsShaped fork
unfolding program
fork-IsShaped = connect-IsShaped (joined bare c b) c a refl half-IsShaped

add-IsShaped_example : IsShaped (add fork (codes "d") 4)
add-IsShaped_example = add-IsShaped fork (codes "d") 4 fork-IsShaped

connect-IsShaped_example : IsShaped (joined fork a b)
unfolding program
connect-IsShaped_example = connect-IsShaped fork a b refl fork-IsShaped

connect-eq-none_example :
    (connect fork a (codes "z") ≡ none) ↔ ((has fork a ≡ false) ⊎ (has fork (codes "z") ≡ false))
connect-eq-none_example = connect-eq-none fork a (codes "z")

elem-connect_example :
    (elem b (adjacent (joined fork a b).order a)
      ≡ ((str_eq a a && str_eq b b) || elem b (adjacent fork.order a)))
    × (elem a (adjacent (joined fork a b).rev b)
        ≡ ((str_eq b b && str_eq a a) || elem a (adjacent fork.rev b)))
unfolding program
elem-connect_example = elem-connect fork a b refl a b

topo_sort-Promise_example : Promise fork (topo_sort fork)
topo_sort-Promise_example = topo_sort-Promise fork fork-IsShaped

abbrev depth : Text → ℕ
depth k = if str_eq k c then 0 else 1

bare-order : (x : Text) → adjacent bare.order x ≡ []
bare-order x =
    (adjacent-add _ b 2 (add-IsShaped _ a 1 (add-IsShaped empty c 3 empty-IsShaped)) x).0
    ∙ (adjacent-add _ a 1 (add-IsShaped empty c 3 empty-IsShaped) x).0
    ∙ (adjacent-add empty c 3 empty-IsShaped x).0

half_edges :
    (x y : Text)
    → elem y (adjacent (joined bare c b).order x)
      ≡ ((str_eq x c && str_eq y b) || elem y (adjacent bare.order x))
unfolding program
half_edges x y = elem-order-connect bare c b refl x y

fork_edges :
    (x y : Text)
    → elem y (adjacent fork.order x)
      ≡ ((str_eq x c && str_eq y a) || elem y (adjacent (joined bare c b).order x))
unfolding program
fork_edges x y = elem-order-connect (joined bare c b) c a refl x y

no_elem : (y : Text) → elem y [] ≡ false
unfolding elem
no_elem y = refl

depth_up : (x y : Text) → elem y (successors fork x) ≡ true → depth x < depth y
unfolding successors
depth_up x y h = ground (
  arith,
  fork_edges x y,
  half_edges x y,
  bare-order x,
  no_elem y,
  str_eq_iff y a,
  str_eq_iff y b,
  str_eq_iff y c,
)

topo_sort_acyclic_example : (out : List Text) × (topo_sort fork ≡ sorted out)
topo_sort_acyclic_example = topo_sort_acyclic fork fork-IsShaped depth depth_up

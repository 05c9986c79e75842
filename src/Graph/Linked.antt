-- ===== src/Graph/Linked.antt =====
-- internal/graph/graph.go: a graph that connections have made of another.
use cloudcc.Base.{◌≡◌, refl, ◌∙◌, Bool, false, ◌||◌, ◌&&◌, Text, str_eq, elem, some, arith}
use cloudcc.Graph.Defs.{Directed, adjacent, connect, has}
use cloudcc.Graph.Shape.{IsShaped, connect-IsShaped, connect_nodes, elem-rev-connect}

-- The graph `g'` is `g` with the edges of `new`, which are given by source and target.
pub record IsLinked {N : Type 0} (g g' : Directed N) (new : Text → Text → Bool) : Type 0 where
  pub same_nodes : g'.nodes ≡ g.nodes
  pub shaped : IsShaped g → IsShaped g'
  pub edges : (a b : Text) → elem a (adjacent g'.rev b) ≡ (elem a (adjacent g.rev b) || new a b)

pub IsLinked-refl :
    {N : Type 0} (g : Directed N) (new : Text → Text → Bool)
    → ((a b : Text) → new a b ≡ false)
    → IsLinked g g new
IsLinked-refl g new h = record {
  same_nodes = refl;
  shaped = λ s. s;
  edges = λ a b. ground (arith, h a b);
}

pub IsLinked-trans :
    {N : Type 0} (f g h : Directed N) (p q r : Text → Text → Bool)
    → IsLinked f g p
    → IsLinked g h q
    → ((a b : Text) → r a b ≡ (p a b || q a b))
    → IsLinked f h r
IsLinked-trans f g h p q r l m e = record {
  same_nodes = m.same_nodes ∙ l.same_nodes;
  shaped = λ s. m.shaped (l.shaped s);
  edges = λ a b. ground (arith, l.edges a b, m.edges a b, e a b);
}

pub connect-IsLinked :
    {N : Type 0} (g : Directed N) (from to : Text) {g' : Directed N}
    → connect g from to ≡ some g'
    → IsLinked g g' (λ a b. str_eq b to && str_eq a from)
connect-IsLinked g from to e = record {
  same_nodes = connect_nodes g from to e;
  shaped = connect-IsShaped g from to e;
  edges = λ a b. ground (arith, elem-rev-connect g from to e b a);
}

pub has-nodes :
    {N : Type 0} (g g' : Directed N) (k : Text) → g'.nodes ≡ g.nodes → has g' k ≡ has g k
unfolding has
has-nodes g g' k e = rw e

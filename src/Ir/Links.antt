-- ===== src/Ir/Links.antt =====
-- internal/ir/ir.go: the second loop of `ResourceOrder`, which turns edges into demands on the order.
use cloudcc.Base.{
  ◌≡◌, refl, ap, Bool, true, false, ◌||◌, ◌&&◌, not, some, List, [], ◌∷◌, Text, str_eq, elem,
  if◌then◌else◌, dict_keys, arith, Bool-cases, Option-cases, inl, inr,
}
use cloudcc.Graph
use cloudcc.Graph.{Directed, Sorting, sorted, cycle, ran_out, has, adjacent, predecessors}
use cloudcc.Graph.Shape.{connect-eq-none}
use cloudcc.Graph.Linked.{IsLinked, IsLinked-refl, IsLinked-trans, connect-IsLinked}
use cloudcc.Ir.Defs.{Key, key_string, Edge, edge_resolves_to, link_edges}

-- Whether an edge of the list, which is no expansion and joins two of the known nodes, demands `a` before `b`.
unfoldable pub demands : List Text → List Edge → Text → Text → Bool
demands known [] a b = false
demands known (e ∷ es) a b =
    (not (str_eq e.kind edge_resolves_to)
      && ((elem (key_string e.from) known && elem (key_string e.to) known)
          && (str_eq b (key_string e.from) && str_eq a (key_string e.to))))
    || demands known es a b

-- Each of the names stands behind those that the edges demand before it.
abbrev pub IsBehind : (Text → Text → Bool) → List Text → List Text → Type 0
IsBehind before seen [] = Unit {0}
IsBehind before seen (k ∷ ks) =
    ((a : Text) → before a k ≡ true → elem a seen ≡ true) × IsBehind before (k ∷ seen) ks

-- Whether the second loop joins the nodes of the edge.
abbrev joins : Directed Key → Edge → Bool
joins g e =
    not (str_eq e.kind edge_resolves_to) && (has g (key_string e.from) && has g (key_string e.to))

demands-joins :
    (g : Directed Key) (e : Edge) (es : List Edge) (a b : Text)
    → demands (dict_keys g.nodes) (e ∷ es) a b ≡ (
        (if joins g e then str_eq b (key_string e.from) && str_eq a (key_string e.to) else false)
        || demands (dict_keys g.nodes) es a b)
unfolding demands has
demands-joins g e es a b = ground arith

-- The second loop adds the demanded edges, and never panics.
pub link_edges_lem :
    (es : List Edge) (g : Directed Key)
    → (g' : Directed Key) × (link_edges es g ≡ some g')
      × IsLinked g g' (demands (dict_keys g.nodes) es)
unfolding link_edges
link_edges_lem [] g = (g, refl, IsLinked-refl g _ (λ a b. unfold demands in refl))
link_edges_lem (e ∷ es) g = elim (Bool-cases (joins g e)) [
  | inr skipped ↦
      let (g', linked, l) = link_edges_lem es g in
      (
        g',
        ground arith,
        record {
          same_nodes = l.same_nodes;
          shaped = l.shaped;
          edges = λ a b. ground (arith, l.edges a b, skipped, demands-joins g e es a b);
        },
      )
  | inl real ↦ elim (Option-cases (Graph.connect g (key_string e.to) (key_string e.from))) [
    | inl none_joined ↦
        absurd
          (ground (arith, (connect-eq-none g (key_string e.to) (key_string e.from)).0 none_joined))
    | inr (g₁, joined) ↦
        let first = connect-IsLinked g (key_string e.to) (key_string e.from) joined in
        let (g', linked, l) = link_edges_lem es g₁ in
        let same = λ (a b : Text). ap (λ ns. demands (dict_keys ns) es a b) first.same_nodes in
        (
          g',
          ground arith,
          IsLinked-trans g g₁ g' _ _ _ first l
              (λ a b. ground (arith, same a b, real, demands-joins g e es a b)),
        )
  ]
]

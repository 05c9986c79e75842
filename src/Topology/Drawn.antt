-- ===== src/Topology/Drawn.antt =====
-- internal/topology/topology.go: the lines of a diagram fit together.
use cloudcc.Base.{
  ◌≡◌, true, false, List, [], ◌∷◌, Text, codes, str_eq, str_lt, elem, map, All, In, ◌≢◌, ◌↔◌, ◌⊎◌,
}
use cloudcc.Ir.Defs
use cloudcc.Ir.Defs.{Key, key_string, Edge, edge_resolves_to, Program}
use cloudcc.Topology.Draw.{View, intents, resources, node_id, nodes, edges}

-- The keys come in the order of their texts.
abbrev pub IsOrdered : List Key → Type 0
IsOrdered [] = Unit {0}
IsOrdered (k ∷ ks) = All (λ j. str_lt (key_string j) (key_string k) ≡ false) ks × IsOrdered ks

-- An edge that can be drawn: both of its ends have the identifier of a node, and it is no expansion.
abbrev pub IsClosed : List Key → Edge → Type 0
IsClosed ks e =
    (elem (node_id e.from) (map node_id ks) ≡ true)
    × (elem (node_id e.to) (map node_id ks) ≡ true)
    × (str_eq e.kind edge_resolves_to ≡ false)

-- The text of one of the keys of these items.
abbrev pub IsKeyText : {A : Type 0} → (A → Key) → Text → List A → Type 0
IsKeyText key t [] = ⊥
IsKeyText key t (x ∷ xs) = (t ≡ key_string (key x)) ⊎ IsKeyText key t xs

-- The text of the key of a resource, other than one that only looks up data.
abbrev pub IsBuiltText : {R : Type 0} → (R → Key) → Text → List R → Type 0
IsBuiltText key t [] = ⊥
IsBuiltText key t (r ∷ rs) =
    ((t ≡ key_string (key r)) × ((key r).kind ≢ codes "aws.availabilityzones"))
    ⊎ IsBuiltText key t rs

module _ {I R : Type 0} (intent_key : I → Key) (resource_key : R → Key) where
  -- A text that the view shows.
  abbrev pub IsShown : Program I R → View → Text → Type 0
  IsShown p intents t = IsKeyText intent_key t (Defs.intents intent_key resource_key p)
  IsShown p resources t = IsBuiltText resource_key t (Defs.resources intent_key resource_key p)

  -- What a diagram shows: the nodes are in the order of their texts; a text is that of a node exactly if the view
  -- shows it; an edge that is drawn is one of the program, no expansion, and joins the identifiers of two nodes;
  -- and every edge of the program that is no expansion and has both of its ends shown is drawn.
  pub record IsPicture (p : Program I R) (view : View) : Type 0 where
    ordered : IsOrdered (nodes intent_key resource_key p view)
    shown :
        (t : Text)
        → (elem t (map key_string (nodes intent_key resource_key p view)) ≡ true) ↔ IsShown p view t
    closed :
        All (IsClosed (nodes intent_key resource_key p view)) (edges intent_key resource_key p view)
    sound :
        (e : Edge)
        → In e (edges intent_key resource_key p view)
        → In e (Defs.edges intent_key resource_key p)
    complete :
        (e : Edge)
        → In e (Defs.edges intent_key resource_key p)
        → e.kind ≢ codes "resolves_to"
        → IsShown p view (key_string e.from)
        → IsShown p view (key_string e.to)
        → In e (edges intent_key resource_key p view)

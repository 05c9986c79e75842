-- ===== src/Ir/Tests.antt =====
-- internal/ir/ir.go on a small program, whose intents and resources are their keys.
use cloudcc.Base.{
  true, ◌||◌, dict_keys, ◌≡◌, refl, [], ◌∷◌, codes, str_eq, str_lt, elem, fetch, put,
}
use cloudcc.Graph
use cloudcc.Ir.Defs.{
  Key, Program, ordered, new_program, add_resource, connect, resolve, resource_order, resources,
  edges, edge_uses, edge_depends_on, edge_key, add_keys, link_edges, key_at, key_order,
}
use cloudcc.Ir.Expr.{
  Expr, plain, reference, override, interp, object, no_exprs, expr, no_fields, field, contains_ref,
  place_found, sort_found, all_refs, refs_in, refs_of, refs_by_field, link_refs, link_exprs,
  link_resources, link_references,
}
use cloudcc.Ir.Refs.{is_some, hides_ref, contains_ref-refs_in}
use cloudcc.Ir.Linked.{IsLinked, IsDemanded, link_references-IsLinked}
use cloudcc.Ir.Order.{OrderSays, resource_order-Says}

abbrev same : Key → Key
same k = k

abbrev table : Key
table = record { kind = codes "aws.dynamodb"; id = codes "carts" }

abbrev lambda : Key
lambda = record { kind = codes "aws.lambda"; id = codes "api" }

abbrev role : Key
role = record { kind = codes "aws.role"; id = codes "api" }

abbrev unit : Key
unit = record { kind = codes "execution_unit"; id = codes "api" }

-- The unit expands into a function, which uses a table and depends on a role.
unfoldable shop : Program Key Key
unfolding resolve add_resource connect edge_key
shop =
    let p₁ = (resolve same same (new_program same same) unit lambda).1 in
    let p₂ = (add_resource same same p₁ role).1 in
    let p₃ = (add_resource same same p₂ table).1 in
    connect same same (connect same same p₃ lambda table edge_uses) lambda role edge_depends_on

order_shop : resource_order same same shop ≡ ordered (table ∷ role ∷ lambda ∷ [])
unfolding shop resource_order resolve add_resource connect edge_key edges add_keys link_edges key_at
    key_order str_lt str_eq elem fetch put Graph.topo_sort Graph.nodes Graph.get Graph.add
    Graph.connect Graph.has
order_shop = refl

resource_order-Says_example :
    OrderSays same same
      (resources same same shop)
      (edges same same shop)
      (resource_order same same shop)
resource_order-Says_example = resource_order-Says same same shop

abbrev table_name : Expr
table_name = reference (record { key = table; prop = codes "name" })

-- A reference as it stands, and one in the fallback of an override.
abbrev properties : Expr
properties = object (
    field (codes "table") (interp (expr (plain (codes "t-")) (expr table_name no_exprs)))
      (field (codes "config") (override (codes "KUBECONFIG") table_name) no_fields))

hidden_ref : contains_ref (override (codes "KUBECONFIG") table_name) ≡ true
unfolding contains_ref
hidden_ref = refl

hidden_ref_not_found : refs_in (override (codes "KUBECONFIG") table_name) ≡ []
unfolding refs_in
hidden_ref_not_found = refl

contains_ref-refs_in_example :
    contains_ref properties ≡ (is_some (refs_in properties) || hides_ref properties)
contains_ref-refs_in_example = contains_ref-refs_in properties

-- Every resource has these properties.
linked_shop :
    elem
      (edge_key (record { from = role; to = table; kind = edge_depends_on }))
      (dict_keys (link_references same same (λ r. properties) (λ r. []) shop).edges)
    ≡ true
unfolding link_references link_resources link_exprs link_refs refs_in refs_of refs_by_field
    sort_found place_found all_refs shop resolve add_resource connect edge_key str_eq str_lt elem
    fetch put Graph.nodes Graph.get Graph.add Graph.has
linked_shop = refl

link_references-IsLinked_example :
    IsLinked shop
      (link_references same same (λ r. properties) (λ r. []) shop)
      (IsDemanded same same (λ r. properties) (λ r. []) shop.resources (resources same same shop))
link_references-IsLinked_example =
    link_references-IsLinked same same (λ r. properties) (λ r. []) shop

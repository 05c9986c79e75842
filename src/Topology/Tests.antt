-- ===== src/Topology/Tests.antt =====
-- internal/topology/topology.go on a unit and a store.
use cloudcc.Base.{◌≡◌, ◌++◌, refl, codes, elem, str_eq, str_lt, has_prefix, put, fetch}
use cloudcc.Config.Kind.{is_persist_kind}
use cloudcc.Graph
use cloudcc.Ir.Defs.{
  Key, key_string, Program, new_program, add_intent, connect, edge_uses, edge_resolves_to, edge_key,
}
use cloudcc.Ir.Defs
use cloudcc.Topology.Draw.{
  intents, service_name, node_id, aws_category, shape_of, edge_arrow, place_key, sort_keys, nodes,
  is_drawn, edges, mermaid,
}

abbrev same : Key → Key
same k = k

abbrev api : Key
api = record { kind = codes "execution_unit"; id = codes "api" }

abbrev cart : Key
cart = record { kind = codes "persist_kv"; id = codes "my-cart" }

abbrev shop : Program Key Key
unfolding add_intent connect edge_key
shop =
    let p₁ = (add_intent same same (new_program same same) cart).1 in
    let p₂ = (add_intent same same p₁ api).1 in connect same same p₂ api cart edge_uses

picture :
    mermaid same same (λ t. t) shop (record { app = codes "shop"; view = intents })
    ≡ codes "%% Architecture of shop, generated by cloudcc.\nflowchart LR\n"
      ++ codes
          "    execution_unit_api[api\nexecution_unit]\n    persist_kv_my_cart[(my-cart\npersist_kv)]\n"
      ++ codes "    execution_unit_api -->|uses| persist_kv_my_cart\n"
unfolding mermaid nodes edges is_drawn sort_keys place_key node_id shape_of edge_arrow service_name
    aws_category is_persist_kind has_prefix elem str_eq str_lt put fetch add_intent connect edge_key
    key_string Defs.edges Graph.nodes Graph.get Graph.add
picture = refl

-- Two stores have one identifier.
one_identifier : node_id cart ≡ node_id (record { kind = codes "persist_kv"; id = codes "my_cart" })
unfolding node_id
one_identifier = refl

-- ===== src/Topology/Draw.antt =====
-- internal/topology/topology.go: what a diagram draws, and its text for Mermaid and Graphviz. A parameter is `quote`, the `%q` of
-- `fmt`.
use cloudcc.Base.{
  ℕ, Bool, ◌&&◌, ◌||◌, not, List, [], ◌∷◌, ◌++◌, Text, codes, str_eq, str_lt, elem, has_prefix,
  is_lower, is_upper, is_digit, keep_if, map, if◌then◌else◌,
}
use cloudcc.Config.Kind
use cloudcc.Config.Kind.{is_persist_kind}
use cloudcc.Ir.Defs.{
  Key, key_string, Edge, edge_uses, edge_exposes, edge_publishes, edge_subscribes, edge_calls,
  edge_resolves_to, Program,
}
use cloudcc.Ir.Defs

pub data View : Type 0 where
  intents resources : View

pub record Options : Type 0 where
  pub app : Text
  pub view : View

abbrev pub aws_prefix : Text
aws_prefix = codes "aws."

-- The text without its first characters, as many as the prefix has.
abbrev pub drop_prefix : Text → Text → Text
drop_prefix [] s = s
drop_prefix (c ∷ p) [] = []
drop_prefix (c ∷ p) (d ∷ s) = drop_prefix p s

unfoldable pub service_name : Text → Text
unfolding has_prefix
service_name kind = if has_prefix kind aws_prefix then drop_prefix aws_prefix kind else kind

abbrev pub label : Key → Text
label key = key.id ++ codes "\n" ++ service_name key.kind

abbrev pub node_char : ℕ → ℕ
node_char c = if is_lower c || is_upper c || is_digit c then c else b'_'

unfoldable pub node_id : Key → Text
node_id key = map node_char (key.kind ++ codes "_" ++ key.id)

-- The tests of `awsCategory`: no category starts with the prefix.
unfoldable pub aws_category : Text → Text
unfolding elem
aws_category kind =
    if elem kind (
      codes "aws.lambda"
      ∷ codes "aws.ecs.service"
      ∷ codes "aws.ecs.task"
      ∷ codes "aws.ecs.taskdefinition"
      ∷ [])
    then Kind.execution_unit
    else if elem kind (codes "aws.apigatewayv2" ∷ codes "aws.alb" ∷ [])
    then Kind.expose
    else if elem kind (
        codes "aws.sns"
        ∷ codes "aws.sns.subscription"
        ∷ codes "aws.sqs"
        ∷ codes "aws.kinesis"
        ∷ codes "aws.lambda.eventsourcemapping"
        ∷ [])
    then Kind.pubsub
    else if elem kind (
        codes "aws.dynamodb"
        ∷ codes "aws.s3"
        ∷ codes "aws.rds"
        ∷ codes "aws.elasticache"
        ∷ codes "aws.memorydb"
        ∷ codes "aws.secretsmanager"
        ∷ [])
    then Kind.persist_kv
    else if elem kind (codes "aws.s3.website" ∷ codes "aws.s3.object" ∷ codes "aws.cloudfront" ∷ [])
    then Kind.static_unit
    else []

-- The kind by which a node is drawn: the recursion of `shape` and `dotShape` has one step.
abbrev pub drawn_kind : Text → Text
unfolding has_prefix
drawn_kind kind = if has_prefix kind aws_prefix then aws_category kind else kind

unfoldable pub shape_of : Text → Text × Text
unfolding str_eq is_persist_kind
shape_of kind =
    if str_eq kind Kind.execution_unit
    then (codes "[", codes "]")
    else if str_eq kind Kind.expose
    then (codes "([", codes "])")
    else if str_eq kind Kind.pubsub
    then (codes ">", codes "]")
    else if str_eq kind Kind.config
    then (codes "{{", codes "}}")
    else if str_eq kind Kind.static_unit
    then (codes "[/", codes "/]")
    else if is_persist_kind kind
    then (codes "[(", codes ")]")
    else (codes "[", codes "]")

abbrev pub shape : Text → Text × Text
shape kind = shape_of (drawn_kind kind)

unfoldable pub dot_shape_of : Text → Text
unfolding str_eq is_persist_kind
dot_shape_of kind =
    if str_eq kind Kind.execution_unit
    then codes "box"
    else if str_eq kind Kind.expose
    then codes "ellipse"
    else if str_eq kind Kind.pubsub
    then codes "cds"
    else if str_eq kind Kind.config
    then codes "hexagon"
    else if str_eq kind Kind.static_unit
    then codes "parallelogram"
    else if is_persist_kind kind
    then codes "cylinder"
    else codes "box"

abbrev pub dot_shape : Text → Text
dot_shape kind = dot_shape_of (drawn_kind kind)

unfoldable pub edge_arrow : Text → Text
unfolding str_eq
edge_arrow kind =
    if str_eq kind edge_uses
    then codes "-->|uses|"
    else if str_eq kind edge_exposes
    then codes "-->|exposes|"
    else if str_eq kind edge_publishes
    then codes "-->|publishes|"
    else if str_eq kind edge_subscribes
    then codes "-.->|subscribes|"
    else if str_eq kind edge_calls
    then codes "==>|calls|"
    else if str_eq kind edge_resolves_to
    then codes "-.->|resolves to|"
    else codes "-->"

-- `dataSourceKinds`.
abbrev pub data_source_kinds : List Text
data_source_kinds = codes "aws.availabilityzones" ∷ []

unfoldable pub place_key : Key → List Key → List Key
unfolding str_lt key_string
place_key k [] = k ∷ []
place_key k (j ∷ js) =
    let rest = place_key k js in
    if str_lt (key_string j) (key_string k) then j ∷ rest else k ∷ j ∷ js

unfoldable pub sort_keys : List Key → List Key
unfolding place_key
sort_keys [] = []
sort_keys (k ∷ ks) = place_key k (sort_keys ks)

unfoldable pub edge_style : Text → Text
unfolding str_eq
edge_style kind =
    if str_eq kind edge_subscribes
    then codes ", style=dashed"
    else if str_eq kind edge_calls
    then codes ", penwidth=2"
    else []

-- `strings.ReplaceAll(s, "\n", "\\n")`.
unfoldable pub escape_lines : Text → Text
escape_lines [] = []
escape_lines (c ∷ s) =
    let rest = escape_lines s in
    if str_eq (c ∷ []) (codes "\n") then b'\\' ∷ b'n' ∷ rest else c ∷ rest

abbrev pub lines : List Text → Text
lines [] = []
lines (l ∷ ls) = l ++ lines ls

-- `drawn[e.From.String()] && drawn[e.To.String()]`, of an edge that is no expansion.
unfoldable pub is_drawn : List Key → Edge → Bool
unfolding elem key_string
is_drawn drawn e =
    not (str_eq e.kind edge_resolves_to)
    && (elem (key_string e.from) (map key_string drawn)
        && elem (key_string e.to) (map key_string drawn))

module _ {I R : Type 0} (intent_key : I → Key) (resource_key : R → Key) where
  abbrev pub view_keys : Program I R → View → List Key
  unfolding elem
  view_keys p intents = map intent_key (Defs.intents intent_key resource_key p)
  view_keys p resources =
      keep_if (λ k. not (elem k.kind data_source_kinds))
        (map resource_key (Defs.resources intent_key resource_key p))

  unfoldable pub nodes : Program I R → View → List Key
  unfolding sort_keys
  nodes p view = sort_keys (view_keys p view)

  unfoldable pub edges : Program I R → View → List Edge
  unfolding is_drawn nodes
  edges p view = keep_if (is_drawn (nodes p view)) (Defs.edges intent_key resource_key p)

  module _ (quote : Text → Text) where
    abbrev pub mermaid_node : Key → Text
    mermaid_node key =
        codes "    "
        ++ node_id key
        ++ (shape key.kind).0
        ++ quote (label key)
        ++ (shape key.kind).1
        ++ codes "\n"

    abbrev pub mermaid_edge : Edge → Text
    mermaid_edge e =
        codes "    "
        ++ node_id e.from
        ++ codes " "
        ++ edge_arrow e.kind
        ++ codes " "
        ++ node_id e.to
        ++ codes "\n"

    unfoldable pub mermaid : Program I R → Options → Text
    unfolding nodes edges
    mermaid p opts =
        codes "%% Architecture of "
        ++ opts.app
        ++ codes ", generated by cloudcc.\n"
        ++ codes "flowchart LR\n"
        ++ lines (map mermaid_node (nodes p opts.view))
        ++ lines (map mermaid_edge (edges p opts.view))

    abbrev pub dot_node : Key → Text
    dot_node key =
        codes "    "
        ++ node_id key
        ++ codes " [label="
        ++ quote (escape_lines (label key))
        ++ codes ", shape="
        ++ dot_shape key.kind
        ++ codes "];\n"

    abbrev pub dot_edge : Edge → Text
    dot_edge e =
        codes "    "
        ++ node_id e.from
        ++ codes " -> "
        ++ node_id e.to
        ++ codes " [label="
        ++ quote e.kind
        ++ edge_style e.kind
        ++ codes "];\n"

    unfoldable pub dot : Program I R → Options → Text
    unfolding nodes edges
    dot p opts =
        codes "// Architecture of "
        ++ opts.app
        ++ codes ", generated by cloudcc.\n"
        ++ codes "digraph "
        ++ quote opts.app
        ++ codes " {\n"
        ++ codes "    rankdir=LR;\n"
        ++ codes "    node [shape=box, style=rounded, fontname=\"Helvetica\"];\n"
        ++ codes "    edge [fontname=\"Helvetica\", fontsize=10];\n"
        ++ lines (map dot_node (nodes p opts.view))
        ++ lines (map dot_edge (edges p opts.view))
        ++ codes "}\n"

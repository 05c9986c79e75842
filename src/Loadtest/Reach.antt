-- ===== src/Loadtest/Reach.antt =====
-- internal/loadtest/plan.go: the part of a dumped program that the harness reads, and the units that load can reach.
use cloudcc.Base.{
  ℕ, zero, suc, ◌&&◌, Option, none, some, List, [], ◌∷◌, ◌++◌, Text, codes, str_eq, elem, length,
  if◌then◌else◌,
}

pub record Key : Type 0 where
  pub kind : Text
  pub id : Text

abbrev pub key_string : Key → Text
key_string k = k.kind ++ b'/' ∷ k.id

pub record Edge : Type 0 where
  pub from : Key
  pub to : Key
  pub kind : Text

abbrev pub kind_expose : Text
kind_expose = codes "expose"

abbrev pub kind_unit : Text
kind_unit = codes "execution_unit"

abbrev pub edge_uses : Text
edge_uses = codes "uses"

abbrev pub edge_publishes : Text
edge_publishes = codes "publishes"

abbrev pub edge_subscribes : Text
edge_subscribes = codes "subscribes"

abbrev pub edge_calls : Text
edge_calls = codes "calls"

-- `subscribers[topic]`: the units that subscribe to it, in the order of the edges.
unfoldable pub subscribers : List Edge → Text → List Text
subscribers [] topic = []
subscribers (e ∷ es) topic =
    let rest = subscribers es topic in
    if str_eq e.kind edge_subscribes
      && str_eq e.from.kind kind_unit
      && str_eq (key_string e.to) topic
    then e.from.id ∷ rest
    else rest

-- The units that the edge leads to.
unfoldable pub next_units : List Edge → Edge → List Text
unfolding subscribers
next_units es e =
    if str_eq e.kind edge_calls
    then e.to.id ∷ []
    else if str_eq e.kind edge_publishes
    then subscribers es (key_string e.to)
    else []

-- `reached`, in the order of its insertions, and `queue`.
pub record Walk : Type 0 where
  pub reached : List Text
  pub queue : List Text

unfoldable pub mark : List Text → Walk → Walk
unfolding elem
mark [] w = w
mark (id ∷ ids) w =
    let seen = mark ids w in
    let fresh = mark ids (record { reached = w.reached ++ id ∷ []; queue = w.queue ++ id ∷ [] }) in
    if elem id w.reached then seen else fresh

-- The loop over the edges, for one unit; `all` are the edges that the subscribers come from.
unfoldable pub visit : List Edge → Text → List Edge → Walk → Walk
unfolding mark next_units
visit all unit [] w = w
visit all unit (e ∷ es) w =
    let passed = visit all unit es w in
    let entered = visit all unit es (mark (next_units all e) w) in
    if str_eq e.from.kind kind_unit && str_eq e.from.id unit then entered else passed

unfoldable pub walk : ℕ → List Edge → Walk → Option (List Text)
walk zero es w = elim w.queue [ [] ↦ some w.reached | unit ∷ queue ↦ none ]
walk (suc fuel) es w = elim w.queue [
  | [] ↦ some w.reached
  | unit ∷ queue ↦ walk fuel es (visit es unit es (record { reached = w.reached; queue = queue }))
]

-- Everything that an edge can lead to, with the entry: as many rounds are enough.
unfoldable pub places : List Edge → List Text
places [] = []
places (e ∷ es) = e.to.id ∷ e.from.id ∷ places es

unfoldable pub reachable_units : List Edge → Text → Option (List Text)
unfolding walk visit places
reachable_units es entry =
    walk (length (entry ∷ places es)) es (record { reached = entry ∷ []; queue = entry ∷ [] })

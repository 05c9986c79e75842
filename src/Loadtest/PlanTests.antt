-- ===== src/Loadtest/PlanTests.antt =====
-- internal/loadtest/plan.go on a shop: two units, the second woken by a topic of the first.
use cloudcc.Base.{
  ◌≡◌, ◌↔◌, refl, true, Option, some, none, List, [], ◌∷◌, Text, codes, str_eq, elem, str_lt,
  has_prefix, IsDistinct,
}
use cloudcc.Sanitize.Chars.{trim}
use cloudcc.Loadtest.Reach.{
  Key, Edge, kind_unit, kind_expose, edge_publishes, edge_subscribes, subscribers, next_units, mark,
  visit, walk, places, reachable_units,
}
use cloudcc.Loadtest.Edges.{Reaches}
use cloudcc.Loadtest.Reached.{reachable_units_lem}
use cloudcc.Loadtest.Checklist.{
  Exposed, store_evidence, edge_label, evidence_of, add_evidence, collect, place_evidence,
  sort_evidence, expectations,
}
use cloudcc.Loadtest.Plan.{
  Program, Plan, SeedRequest, Step, derived, phase_create, phase_read, after_char, before_char,
  param_of, split, fits, same_shape, is_before, place_step, sort_steps, least, phase_of, body_for,
  step_of, find_exposed, derive_plan, route_coverage,
}
use cloudcc.Loadtest.Answered.{IsDerived, derive_plan-IsDerived}
use cloudcc.Loadtest.Covered.{derive_plan-covers}

abbrev web : Key
web = record { kind = kind_unit; id = codes "web" }

abbrev mailer : Key
mailer = record { kind = kind_unit; id = codes "mailer" }

abbrev orders : Key
orders = record { kind = codes "topic"; id = codes "orders" }

abbrev shop_edges : List Edge
shop_edges =
    record { from = mailer; to = orders; kind = edge_subscribes }
    ∷ record { from = web; to = orders; kind = edge_publishes }
    ∷ []

abbrev front : Exposed
front = record {
  id = codes "gw";
  unit = codes "web";
  routes =
      record { verb = codes "GET"; path = codes "/pets/{pet}" }
      ∷ record { verb = codes "POST"; path = codes "/pets" }
      ∷ [];
}

abbrev shop : Program
shop = record {
  intents = record { key = record { kind = kind_expose; id = codes "gw" }; payload = [] } ∷ [];
  edges = shop_edges;
}

abbrev bodies : List SeedRequest
bodies = record { method = codes "POST"; path = codes "/pets/"; body = codes "7" } ∷ []

abbrev read_any : Text → Option Exposed
read_any payload = some front

abbrev shop_steps : List Step
shop_steps =
    record {
      verb = codes "POST";
      path = codes "/pets";
      body = some (codes "7");
      phase = phase_create;
      phase_name = codes "create";
      param = [];
    }
    ∷ record {
      verb = codes "GET";
      path = codes "/pets/{pet}";
      body = none;
      phase = phase_read;
      phase_name = codes "read";
      param = codes "pet";
    }
    ∷ []

abbrev shop_plan : Plan
unfolding expectations collect add_evidence evidence_of store_evidence edge_label has_prefix
    sort_evidence place_evidence str_lt str_eq elem
shop_plan = record {
  app = codes "shop";
  unit = codes "web";
  steps = shop_steps;
  expect = expectations (codes "web" ∷ codes "mailer" ∷ []) shop_edges front;
  routes = front.routes;
}

shop_found : reachable_units shop_edges (codes "web") ≡ some (codes "web" ∷ codes "mailer" ∷ [])
unfolding reachable_units walk visit mark next_units subscribers places str_eq elem
shop_found = refl

shop_derived : derive_plan (λ t. t) read_any (codes "shop") shop bodies ≡ derived shop_plan
unfolding derive_plan find_exposed least step_of phase_of body_for same_shape fits split trim
    has_prefix param_of after_char before_char sort_steps place_step is_before expectations collect
    add_evidence evidence_of edge_label sort_evidence place_evidence str_lt str_eq elem
    reachable_units walk visit mark next_units subscribers places
shop_derived = refl

reachable_units_lem_example :
    (found : List Text) × (reachable_units shop_edges (codes "web") ≡ some found)
    × IsDistinct found
    × ((k : Text) → (elem k found ≡ true) ↔ Reaches shop_edges (codes "web") k)
reachable_units_lem_example = reachable_units_lem shop_edges (codes "web")

derive_plan-IsDerived_example :
    IsDerived (λ t. t) read_any shop (derive_plan (λ t. t) read_any (codes "shop") shop bodies)
derive_plan-IsDerived_example = derive_plan-IsDerived (λ t. t) read_any (codes "shop") shop bodies

derive_plan-covers_example :
    (route_coverage (λ t. t) read_any shop_plan).0 ≡ (route_coverage (λ t. t) read_any shop_plan).1
derive_plan-covers_example =
    derive_plan-covers (λ t. t) read_any (codes "shop") shop bodies shop_plan shop_derived

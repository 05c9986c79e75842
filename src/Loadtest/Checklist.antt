-- ===== src/Loadtest/Checklist.antt =====
-- internal/loadtest/plan.go: `expectations`, the checklist of the edges to observe.
use cloudcc.Base.{
  Bool, true, ◌&&◌, Option, none, some, List, [], ◌∷◌, ◌++◌, Text, codes, str_eq, str_lt, elem,
  has_prefix, map, if◌then◌else◌,
}
use cloudcc.Loadtest.Reach.{
  key_string, Edge, kind_expose, kind_unit, edge_uses, edge_subscribes, edge_calls,
}

pub record Route : Type 0 where
  pub verb : Text
  pub path : Text

pub record Exposed : Type 0 where
  pub id : Text
  pub unit : Text
  pub routes : List Route

-- The explanation of an expectation, with the values that its text names.
pub data Why : Type 0 where
  gateway_silent : Why
  store_unreached : (unit store : Text) → Why
  call_missing : (unit callee : Text) → Why
  subscription_missing : (unit topic : Text) → Why

pub record Evidence : Type 0 where
  pub edge : Text
  pub kind : Text
  pub target : Text
  pub source_reachable : Bool
  pub fallback : Text
  pub why : Why

-- A map from persist capabilities to kinds of evidence, with the kind for what is not in it.
unfoldable pub store_evidence : Text → Text
unfolding str_eq
store_evidence kind =
    if str_eq kind (codes "persist_kv")
    then codes "store"
    else if str_eq kind (codes "persist_fs")
    then codes "bucket"
    else if str_eq kind (codes "persist_orm")
    then codes "orm"
    else if str_eq kind (codes "persist_redis")
    then codes "cache"
    else if str_eq kind (codes "persist_secret")
    then codes "secret"
    else codes "store"

unfoldable pub edge_label : Edge → Text
edge_label e = key_string e.from ++ codes " -" ++ e.kind ++ codes "-> " ++ key_string e.to

-- The switch of `expectations`, for an edge that leaves a unit.
unfoldable pub evidence_of : List Text → Edge → Option Evidence
unfolding store_evidence edge_label has_prefix
evidence_of reached e =
    let base : Evidence = record {
      edge = edge_label e;
      kind = codes "invocations";
      target = e.to.id;
      source_reachable = elem e.from.id reached;
      fallback = [];
      why = call_missing e.from.id e.to.id;
    } in
    if str_eq e.kind edge_uses && has_prefix e.to.kind (codes "persist_")
    then some (record base {
      kind = store_evidence e.to.kind;
      fallback = e.from.id;
      why = store_unreached e.from.id e.to.id;
    })
    else if str_eq e.kind edge_calls
    then some base
    else if str_eq e.kind edge_subscribes
    then some (record base { target = e.from.id; why = subscription_missing e.from.id e.to.id })
    else none

-- `add`: an edge with the same label is left out.
unfoldable pub add_evidence : Evidence → List Evidence → List Evidence
unfolding elem
add_evidence e out = if elem e.edge (map (λ o. o.edge) out) then out else out ++ e ∷ []

unfoldable pub collect : List Text → List Edge → List Evidence → List Evidence
unfolding add_evidence evidence_of
collect reached [] out = out
collect reached (e ∷ es) out =
    let passed = collect reached es out in
    let entered : List Evidence = elim (evidence_of reached e) [
      | none ↦ collect reached es out
      | some v ↦ collect reached es (add_evidence v out)
    ] in
    if str_eq e.from.kind kind_unit then entered else passed

unfoldable pub place_evidence : Evidence → List Evidence → List Evidence
unfolding str_lt
place_evidence e [] = e ∷ []
place_evidence e (f ∷ fs) =
    let rest = place_evidence e fs in if str_lt f.edge e.edge then f ∷ rest else e ∷ f ∷ fs

unfoldable pub sort_evidence : List Evidence → List Evidence
unfolding place_evidence
sort_evidence [] = []
sort_evidence (e ∷ es) = place_evidence e (sort_evidence es)

abbrev pub gateway_evidence : Exposed → Evidence
gateway_evidence x = record {
  edge =
      kind_expose ++ codes "/" ++ x.id ++ codes " -exposes-> " ++ kind_unit ++ codes "/" ++ x.unit;
  kind = codes "http";
  target = x.unit;
  source_reachable = true;
  fallback = [];
  why = gateway_silent;
}

unfoldable pub expectations : List Text → List Edge → Exposed → List Evidence
unfolding collect sort_evidence
expectations reached es exposed = sort_evidence (collect reached es (gateway_evidence exposed ∷ []))

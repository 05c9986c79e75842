-- ===== src/Loadtest/Plan.antt =====
-- internal/loadtest/plan.go: the plan of a load test, from the dumped program and the bodies of a seed. Parameters are
-- `upper`, `strings.ToUpper` of Go's library, and `decode`, which reads the JSON of a gateway's payload. The fuel of the
-- walk over the units is that of `reachable_units`, so that `too_many_rounds` stands for a loop that does not end.
use cloudcc.Base.{
  ℕ, Bool, true, false, ◌&&◌, ◌||◌, not, Option, none, some, List, [], ◌∷◌, ◌++◌, Text, codes,
  str_eq, str_lt, elem, length, has_prefix, map, ltb, ◌==◌, if◌then◌else◌,
}
use cloudcc.Sanitize.Chars.{trim}
use cloudcc.Loadtest.Reach.{Key, Edge, kind_expose, reachable_units}
use cloudcc.Loadtest.Checklist.{Route, Exposed, Evidence, expectations}

pub record Intent : Type 0 where
  pub key : Key
  pub payload : Text

pub record Program : Type 0 where
  pub intents : List Intent
  pub edges : List Edge

pub data Phase : Type 0 where
  phase_create phase_read phase_delete : Phase

abbrev pub phase_string : Phase → Text
phase_string phase_create = codes "create"
phase_string phase_read = codes "read"
phase_string phase_delete = codes "delete"

-- The number of a phase, by which phases are compared.
abbrev pub phase_rank : Phase → ℕ
phase_rank phase_create = 0
phase_rank phase_read = 1
phase_rank phase_delete = 2

-- A body is `none` where the step has none.
pub record Step : Type 0 where
  pub verb : Text
  pub path : Text
  pub body : Option Text
  pub phase : Phase
  pub phase_name : Text
  pub param : Text

pub record Plan : Type 0 where
  pub app : Text
  pub unit : Text
  pub steps : List Step
  pub expect : List Evidence
  pub routes : List Route

pub record SeedRequest : Type 0 where
  pub method : Text
  pub path : Text
  pub body : Text

pub data PlanError : Type 0 where
  bad_payload : Text → PlanError
  nothing_exposed too_many_rounds : PlanError

pub data Derived : Type 0 where
  derived : Plan → Derived
  refused : PlanError → Derived

-- `path[strings.Index(path, "{")+1:]`, if there is a brace, and what stands before the next closing one.
unfoldable pub after_char : ℕ → Text → Option Text
after_char c [] = none
after_char c (d ∷ s) = let rest = after_char c s in if d == c then some s else rest

unfoldable pub before_char : ℕ → Text → Option Text
before_char c [] = none
before_char c (d ∷ s) =
    let rest = before_char c s in
    if d == c then some [] else elim rest [ none ↦ none | some t ↦ some (d ∷ t) ]

unfoldable pub param_of : Text → Text
unfolding after_char before_char
param_of path = elim (after_char b'{' path) [
  | none ↦ []
  | some s ↦ elim (before_char b'}' s) [ none ↦ [] | some p ↦ p ]
]

-- `strings.Split` at one character: there is always a first part.
unfoldable pub split : ℕ → Text → List Text
split c [] = [] ∷ []
split c (d ∷ s) = elim (split c s) [
  | [] ↦ []
  | part ∷ parts ↦ if d == c then [] ∷ part ∷ parts else (d ∷ part) ∷ parts
]

-- The loop of `sameShape`, which starts with the test of the lengths.
unfoldable pub fits : List Text → List Text → Bool
unfolding has_prefix
fits [] [] = true
fits [] (c ∷ cs) = false
fits (t ∷ ts) [] = false
fits (t ∷ ts) (c ∷ cs) = (has_prefix t (codes "{") || str_eq t c) && fits ts cs

unfoldable pub same_shape : Text → Text → Bool
unfolding trim split fits
same_shape template concrete =
    fits (split b'/' (trim (λ c. c == b'/') template)) (split b'/' (trim (λ c. c == b'/') concrete))

-- A stable sort by phase and path.
unfoldable pub is_before : Step → Step → Bool
is_before a b =
    if not (phase_rank a.phase == phase_rank b.phase)
    then ltb (phase_rank a.phase) (phase_rank b.phase)
    else str_lt a.path b.path

unfoldable pub place_step : Step → List Step → List Step
unfolding is_before
place_step s [] = s ∷ []
place_step s (t ∷ ts) = let rest = place_step s ts in if is_before t s then t ∷ rest else s ∷ t ∷ ts

unfoldable pub sort_steps : List Step → List Step
unfolding place_step
sort_steps [] = []
sort_steps (s ∷ ss) = place_step s (sort_steps ss)

-- The gateway with the least id. Of several with the same id Go's sort may put any first; here it is the first.
unfoldable pub least : Exposed → List Exposed → Exposed
unfolding str_lt
least x [] = x
least x (y ∷ ys) = let m = least y ys in if str_lt m.id x.id then m else x

-- The gateways, or the id of the first whose payload cannot be read.
pub data Found : Type 0 where
  gateways : List Exposed → Found
  unreadable : Text → Found

module _ (upper : Text → Text) (decode : Text → Option Exposed) where
  unfoldable pub phase_of : Route → Phase
  unfolding str_eq
  phase_of r =
      let verb = upper r.verb in
      if str_eq verb (codes "GET") || str_eq verb (codes "HEAD") || str_eq verb (codes "OPTIONS")
      then phase_read
      else if str_eq verb (codes "DELETE")
      then phase_delete
      else phase_create

  unfoldable pub body_for : Route → List SeedRequest → Option Text
  unfolding same_shape
  body_for route [] = none
  body_for route (req ∷ requests) =
      let rest = body_for route requests in
      if not (str_eq (upper req.method) (upper route.verb)) || str_eq req.body []
      then rest
      else if same_shape route.path req.path
      then some req.body
      else rest

  unfoldable pub step_of : List SeedRequest → Route → Step
  unfolding phase_of body_for param_of
  step_of seed route = record {
    verb = upper route.verb;
    path = route.path;
    body = body_for route seed;
    phase = phase_of route;
    phase_name = phase_string (phase_of route);
    param = param_of route.path;
  }

  unfoldable pub find_exposed : List Intent → Found
  find_exposed [] = gateways []
  find_exposed (i ∷ is) =
      let rest = find_exposed is in
      let read : Found = elim (decode i.payload) [
        | none ↦ unreadable i.key.id
        | some x ↦ elim rest [ gateways xs ↦ gateways (x ∷ xs) | unreadable id ↦ unreadable id ]
      ] in
      if str_eq i.key.kind kind_expose then read else rest

  unfoldable pub derive_plan : Text → Program → List SeedRequest → Derived
  unfolding find_exposed least step_of sort_steps expectations
  derive_plan app p seed = elim (find_exposed p.intents) [
    | unreadable id ↦ refused (bad_payload id)
    | gateways [] ↦ refused nothing_exposed
    | gateways (x ∷ xs) ↦
        let exposed = least x xs in
        elim (reachable_units p.edges exposed.unit) [
          | none ↦ refused too_many_rounds
          | some reached ↦ derived (record {
            app = app;
            unit = exposed.unit;
            steps = sort_steps (map (step_of seed) exposed.routes);
            expect = expectations reached p.edges exposed;
            routes = exposed.routes;
          })
        ]
  ]

  -- A set of texts, in the order of insertion.
  unfoldable pub insert : Text → List Text → List Text
  unfolding elem
  insert k set = if elem k set then set else set ++ k ∷ []

  unfoldable pub declared_keys : List Route → List Text → List Text
  unfolding insert
  declared_keys [] set = set
  declared_keys (r ∷ rs) set = declared_keys rs (insert (upper r.verb ++ codes " " ++ r.path) set)

  unfoldable pub hit_keys : List Text → List Step → List Text → List Text
  unfolding insert
  hit_keys declared [] set = set
  hit_keys declared (s ∷ ss) set =
      let key = s.verb ++ codes " " ++ s.path in
      hit_keys declared ss (if elem key declared then insert key set else set)

  unfoldable pub route_coverage : Plan → ℕ × ℕ
  unfolding declared_keys hit_keys
  route_coverage p =
      let declared = declared_keys p.routes [] in
      (length (hit_keys declared p.steps []), length declared)

-- ===== src/Loadtest/Covered.antt =====
-- internal/loadtest/plan.go: a derived plan exercises every declared route, by the count of `RouteCoverage`.
use cloudcc.Base.{
  ◌≡◌, refl, sym, ap, ◌∙◌, ◌&&◌, ◌||◌, Option, List, [], ◌∷◌, ◌++◌, Text, codes, str_eq, str_eq_iff,
  elem, elem-append, IsDistinct, IsDistinct-snoc, length-le_of_Within, map, arith, Bool-cases,
  Option-cases, inl, inr,
}
use cloudcc.Loadtest.Reach.{reachable_units}
use cloudcc.Loadtest.Checklist.{Route, Exposed}
use cloudcc.Loadtest.Plan.{
  Program, Step, Plan, SeedRequest, derived, sort_steps, least, step_of, find_exposed, derive_plan,
  insert, declared_keys, hit_keys, route_coverage,
}
use cloudcc.Loadtest.Answered.{Found-cases}
use cloudcc.Loadtest.Derived.{step_keys, elem-sort_steps}

module _ (upper : Text → Text) (decode : Text → Option Exposed) where
  -- The keys of the declared routes, as they are written.
  abbrev pub route_keys : List Route → List Text
  route_keys rs = map (λ r. upper r.verb ++ codes " " ++ r.path) rs

  elem-insert :
      (k x : Text) (set : List Text)
      → elem k (insert upper decode x set) ≡ (elem k set || str_eq k x)
  unfolding insert elem
  elem-insert k x set = elim (Bool-cases (elem x set)) [
    | inl old ↦ ground (arith, str_eq_iff k x, old)
    | inr new ↦ ground (arith, elem-append k set (x ∷ []), new)
  ]

  insert-IsDistinct :
      (x : Text) (set : List Text) → IsDistinct set → IsDistinct (insert upper decode x set)
  unfolding insert
  insert-IsDistinct x set h = elim (Bool-cases (elem x set)) [
    | inl old ↦ rw old h
    | inr new ↦ rw new (IsDistinct-snoc set x h new)
  ]

  elem-declared_keys :
      (k : Text) (rs : List Route) (set : List Text)
      → elem k (declared_keys upper decode rs set) ≡ (elem k set || elem k (route_keys rs))
  unfolding declared_keys elem
  elem-declared_keys k [] set = ground arith
  elem-declared_keys k (r ∷ rs) set =
      let key = upper r.verb ++ codes " " ++ r.path in
      ground (arith, elem-declared_keys k rs (insert upper decode key set), elem-insert k key set)

  declared_keys-IsDistinct :
      (rs : List Route) (set : List Text)
      → IsDistinct set
      → IsDistinct (declared_keys upper decode rs set)
  unfolding declared_keys
  declared_keys-IsDistinct [] set h = h
  declared_keys-IsDistinct (r ∷ rs) set h =
      declared_keys-IsDistinct rs _ (insert-IsDistinct (upper r.verb ++ codes " " ++ r.path) set h)

  elem-hit_keys :
      (k : Text) (declared : List Text) (ss : List Step) (set : List Text)
      → elem k (hit_keys upper decode declared ss set)
        ≡ (elem k set || (elem k declared && elem k (step_keys ss)))
  unfolding hit_keys elem
  elem-hit_keys k declared [] set = ground arith
  elem-hit_keys k declared (s ∷ ss) set =
      let key = s.verb ++ codes " " ++ s.path in
      elim (Bool-cases (elem key declared)) [
        | inl in_set ↦ ground (
          arith,
          in_set,
          elem-hit_keys k declared ss (insert upper decode key set),
          elem-insert k key set,
          str_eq_iff k key,
        )
        | inr out ↦ ground (arith, out, elem-hit_keys k declared ss set, str_eq_iff k key)
      ]

  hit_keys-IsDistinct :
      (declared : List Text) (ss : List Step) (set : List Text)
      → IsDistinct set
      → IsDistinct (hit_keys upper decode declared ss set)
  unfolding hit_keys
  hit_keys-IsDistinct declared [] set h = h
  hit_keys-IsDistinct declared (s ∷ ss) set h =
      let key = s.verb ++ codes " " ++ s.path in
      elim (Bool-cases (elem key declared)) [
        | inl in_set ↦ rw in_set (hit_keys-IsDistinct declared ss _ (insert-IsDistinct key set h))
        | inr out ↦ rw out (hit_keys-IsDistinct declared ss set h)
      ]

  step_keys-map :
      (seed : List SeedRequest) (rs : List Route)
      → step_keys (map (step_of upper decode seed) rs) ≡ route_keys rs
  unfolding step_of
  step_keys-map seed [] = refl
  step_keys-map seed (r ∷ rs) =
      ap (λ t. (upper r.verb ++ codes " " ++ r.path) ∷ t) (step_keys-map seed rs)

  derived_steps :
      (app : Text) (p : Program) (seed : List SeedRequest) (plan : Plan)
      → derive_plan upper decode app p seed ≡ derived plan
      → plan.steps ≡ sort_steps (map (step_of upper decode seed) plan.routes)
  unfolding derive_plan
  derived_steps app p seed plan h = elim (Found-cases (find_exposed upper decode p.intents)) [
    | inl ([], e) ↦ absurd (ground (arith, e, h))
    | inl (x ∷ xs, e) ↦ elim (Option-cases (reachable_units p.edges (least x xs).unit)) [
      | inl stuck ↦ absurd (ground (arith, e, h, stuck))
      | inr (found, ends) ↦ ground (arith, e, h, ends)
    ]
    | inr (id, e) ↦ absurd (ground (arith, e, h))
  ]

  -- A plan that is derived reaches every declared route, by its own count: the two numbers of `RouteCoverage` are the
  -- same.
  pub derive_plan-covers :
      (app : Text) (p : Program) (seed : List SeedRequest) (plan : Plan)
      → derive_plan upper decode app p seed ≡ derived plan
      → (route_coverage upper decode plan).0 ≡ (route_coverage upper decode plan).1
  unfolding route_coverage
  derive_plan-covers app p seed plan h =
      let declared : List Text = declared_keys upper decode plan.routes [] in
      let hit : List Text = hit_keys upper decode declared plan.steps [] in
      let same : (k : Text) → elem k hit ≡ (elem k declared && elem k (step_keys plan.steps)) =
        λ k. elem-hit_keys k declared plan.steps [] in
      let all : (k : Text) → elem k (step_keys plan.steps) ≡ elem k declared = λ k.
        ap (λ ss. elem k (step_keys ss)) (derived_steps app p seed plan h)
        ∙ elem-sort_steps k (map (step_of upper decode seed) plan.routes)
        ∙ ap (elem k) (step_keys-map seed plan.routes)
        ∙ sym (elem-declared_keys k plan.routes []) in
      let le =
        length-le_of_Within hit declared (hit_keys-IsDistinct declared plan.steps [] tt)
          (λ k i. ground (arith, same k, i)) in
      let ge =
        length-le_of_Within declared hit (declared_keys-IsDistinct plan.routes [] tt)
          (λ k i. ground (arith, same k, all k, i)) in
      omega (arith, le, ge)

-- ===== src/Loadtest/Answered.antt =====
-- internal/loadtest/plan.go: every answer of `DerivePlan`.
use cloudcc.Base.{
  ◌≡◌, ◌↔◌, ◌⊎◌, refl, sym, ◌∙◌, subst, true, false, Option, none, some, List, [], ◌∷◌, Text,
  str_eq, str_eq_iff, str_lt, str_lt_irrefl, str_lt_asymm, str_ge_trans, elem, IsDistinct, map, All,
  arith, Bool-cases, Option-cases, inl, inr,
}
use cloudcc.Loadtest.Reach.{Edge, kind_expose}
use cloudcc.Loadtest.Edges.{Reaches}
use cloudcc.Loadtest.Reached.{reachable_units_lem}
use cloudcc.Loadtest.Checklist.{Exposed, collect, gateway_evidence, expectations}
use cloudcc.Loadtest.Plan.{
  Intent, Program, Plan, SeedRequest, Derived, derived, refused, bad_payload, nothing_exposed,
  least, step_of, Found, gateways, unreadable, find_exposed, derive_plan,
}
use cloudcc.Loadtest.Derived.{
  IsPhased, sort_steps-IsPhased, labels, IsTaken, IsListed, taken-IsListed, collect-IsCollected,
  elem-sort_evidence, sort_evidence-IsDistinct,
}

-- No gateway has a smaller id.
abbrev pub IsLeast : Exposed → List Exposed → Type 0
IsLeast m xs = All (λ x. str_lt x.id m.id ≡ false) xs

IsLeast-trans :
    (x m : Exposed) (zs : List Exposed) → str_lt m.id x.id ≡ false → IsLeast m zs → IsLeast x zs
IsLeast-trans x m [] h a = tt
IsLeast-trans x m (z ∷ zs) h a = (str_ge_trans x.id m.id z.id h a.0, IsLeast-trans x m zs h a.1)

least-IsLeast : (x : Exposed) (xs : List Exposed) → IsLeast (least x xs) (x ∷ xs)
unfolding least
least-IsLeast x [] = (str_lt_irrefl x.id, tt)
least-IsLeast x (y ∷ ys) = elim (Bool-cases (str_lt (least y ys).id x.id)) [
  | inl lt ↦
      let same : least x (y ∷ ys) ≡ least y ys = ground (arith, lt) in
      subst (λ m. IsLeast m (x ∷ y ∷ ys)) (sym same)
        (str_lt_asymm (least y ys).id x.id lt, least-IsLeast y ys)
  | inr ge ↦
      let same : least x (y ∷ ys) ≡ x = ground (arith, ge) in
      subst (λ m. IsLeast m (x ∷ y ∷ ys)) (sym same)
        (str_lt_irrefl x.id, IsLeast-trans x (least y ys) (y ∷ ys) ge (least-IsLeast y ys))
]

-- The checklist of an application has no label twice, has the gateway, and has every edge of a unit that is a call,
-- a subscription or the use of a store.
record IsChecklist (found : List Text) (es : List Edge) (exposed : Exposed) (names : List Text)
    : Type 0 where
  pub distinct : IsDistinct names
  pub has_gateway : elem (gateway_evidence exposed).edge names ≡ true
  pub has_edges : All (IsListed names) es

All-IsListed :
    (found xs ys : List Text) (es : List Edge)
    → ((k : Text) → elem k xs ≡ true → elem k ys ≡ true)
    → All (IsTaken found xs) es
    → All (IsListed ys) es
All-IsListed found xs ys [] h a = tt
All-IsListed found xs ys (e ∷ es) h a =
    (taken-IsListed found ys e (λ v u i. h v.edge (a.0 v u i)), All-IsListed found xs ys es h a.1)

expectations-IsChecklist :
    (found : List Text) (es : List Edge) (exposed : Exposed)
    → IsChecklist found es exposed (labels (expectations found es exposed))
unfolding expectations elem
expectations-IsChecklist found es exposed =
    let start = gateway_evidence exposed ∷ [] in
    let c = collect-IsCollected found es start (refl, tt) in
    let keep : (k : Text)
        → elem k (labels (collect found es start)) ≡ true
        → elem k (labels (expectations found es exposed)) ≡ true =
      λ k i. elem-sort_evidence k (collect found es start) ∙ i in
    record {
      distinct = sort_evidence-IsDistinct (collect found es start) c.distinct;
      has_gateway = keep (gateway_evidence exposed).edge (
          c.kept (gateway_evidence exposed).edge (
            ground
              (arith, str_eq_iff (gateway_evidence exposed).edge (gateway_evidence exposed).edge)));
      has_edges = All-IsListed found _ _ es keep c.listed;
    }

All-least :
    (P : Exposed → Type 0) (x : Exposed) (xs : List Exposed) → All P (x ∷ xs) → P (least x xs)
unfolding least
All-least P x [] a = a.0
All-least P x (y ∷ ys) a = elim (Bool-cases (str_lt (least y ys).id x.id)) [
  | inl lt ↦ rw lt (All-least P y ys a.1)
  | inr ge ↦ rw ge a.0
]

pub Found-cases :
    (f : Found) → ((xs : List Exposed) × (f ≡ gateways xs)) ⊎ ((id : Text) × (f ≡ unreadable id))
Found-cases (gateways xs) = inl (xs, refl)
Found-cases (unreadable id) = inr (id, refl)

All-map :
    (P Q : Exposed → Type 0) (xs : List Exposed) → ((x : Exposed) → P x → Q x) → All P xs → All Q xs
All-map P Q [] h a = tt
All-map P Q (x ∷ xs) h a = (h x a.0, All-map P Q xs h a.1)

module _ (upper : Text → Text) (decode : Text → Option Exposed) where
  -- A gateway that the payload of an intent describes.
  abbrev pub IsOffered : Exposed → List Intent → Type 0
  IsOffered y [] = ⊥
  IsOffered y (i ∷ is) =
      ((str_eq i.key.kind kind_expose ≡ true) × (decode i.payload ≡ some y)) ⊎ IsOffered y is

  -- An intent of a gateway whose payload cannot be read.
  abbrev pub IsUnread : Text → List Intent → Type 0
  IsUnread id [] = ⊥
  IsUnread id (i ∷ is) =
      ((str_eq i.key.kind kind_expose ≡ true) × (decode i.payload ≡ none) × (i.key.id ≡ id))
      ⊎ IsUnread id is

  found-skip :
      (i : Intent) (is : List Intent)
      → str_eq i.key.kind kind_expose ≡ false
      → find_exposed upper decode (i ∷ is) ≡ find_exposed upper decode is
  unfolding find_exposed
  found-skip i is h = ground (arith, h)

  found-read :
      (i : Intent) (is : List Intent) (xs : List Exposed)
      → str_eq i.key.kind kind_expose ≡ true
      → find_exposed upper decode (i ∷ is) ≡ gateways xs
      → (y : Exposed) × (ys : List Exposed) × (decode i.payload ≡ some y)
        × (find_exposed upper decode is ≡ gateways ys)
        × (xs ≡ y ∷ ys)
  unfolding find_exposed
  found-read i is xs u h = elim (Option-cases (decode i.payload)) [
    | inl bad ↦ absurd (ground (arith, u, bad, h))
    | inr (y, good) ↦ elim (Found-cases (find_exposed upper decode is)) [
      | inl (ys, e) ↦ (y, ys, good, e, ground (arith, u, good, h, e))
      | inr (id, e) ↦ absurd (ground (arith, u, good, h, e))
    ]
  ]

  find_exposed-All :
      (P : Exposed → Type 0) (is : List Intent) (xs : List Exposed)
      → find_exposed upper decode is ≡ gateways xs
      → All P xs
      → All
          (λ i.
            str_eq i.key.kind kind_expose ≡ true
            → (y : Exposed) × (decode i.payload ≡ some y) × P y)
          is
  find_exposed-All P [] xs h a = tt
  find_exposed-All P (i ∷ is) xs h a = elim (Bool-cases (str_eq i.key.kind kind_expose)) [
    | inr other ↦
        ((λ u. absurd (ground arith)), find_exposed-All P is xs (sym (found-skip i is other) ∙ h) a)
    | inl u ↦
        let (y, ys, good, rest, split) = found-read i is xs u h in
        let a' : All P (y ∷ ys) = subst (All P) split a in
        ((λ v. (y, good, a'.0)), find_exposed-All P is ys rest a'.1)
  ]

  found-IsOffered :
      (is : List Intent) (xs : List Exposed)
      → find_exposed upper decode is ≡ gateways xs
      → All (λ y. IsOffered y is) xs
  unfolding find_exposed
  found-IsOffered [] xs h =
      let none_there : [] ≡ xs = ground (arith, h) in
      subst (All (λ y. IsOffered y [])) none_there tt
  found-IsOffered (i ∷ is) xs h = elim (Bool-cases (str_eq i.key.kind kind_expose)) [
    | inr other ↦
        All-map (λ y. IsOffered y is) (λ y. IsOffered y (i ∷ is)) xs (λ y o. inr o)
          (found-IsOffered is xs (sym (found-skip i is other) ∙ h))
    | inl u ↦
        let (y, ys, good, rest, split) = found-read i is xs u h in
        subst (All (λ y. IsOffered y (i ∷ is))) (sym split) (
          inl (u, good),
          All-map (λ y. IsOffered y is) (λ y. IsOffered y (i ∷ is)) ys (λ y o. inr o)
              (found-IsOffered is ys rest),
        )
  ]

  find_exposed-none :
      (is : List Intent)
      → find_exposed upper decode is ≡ gateways []
      → All (λ i. str_eq i.key.kind kind_expose ≡ false) is
  find_exposed-none [] h = tt
  find_exposed-none (i ∷ is) h = elim (Bool-cases (str_eq i.key.kind kind_expose)) [
    | inr other ↦ (other, find_exposed-none is (sym (found-skip i is other) ∙ h))
    | inl u ↦
        let (y, ys, good, rest, split) = found-read i is [] u h in absurd (ground (arith, split))
  ]

  find_exposed-IsUnread :
      (is : List Intent) (id : Text) → find_exposed upper decode is ≡ unreadable id → IsUnread id is
  unfolding find_exposed
  find_exposed-IsUnread [] id h = absurd (ground arith)
  find_exposed-IsUnread (i ∷ is) id h = elim (Bool-cases (str_eq i.key.kind kind_expose)) [
    | inr other ↦ inr (find_exposed-IsUnread is id (sym (found-skip i is other) ∙ h))
    | inl u ↦ elim (Option-cases (decode i.payload)) [
      | inl bad ↦ inl (u, bad, ground (arith, u, bad, h))
      | inr (y, good) ↦ elim (Found-cases (find_exposed upper decode is)) [
        | inl (ys, e) ↦ absurd (ground (arith, u, good, h, e))
        | inr (id', e) ↦ inr (find_exposed-IsUnread is id (ground (arith, u, good, h, e)))
      ]
    ]
  ]

  -- What the plan of a program has, with the gateway that it puts load on and the units that load reaches.
  pub record IsPlanned (p : Program) (plan : Plan) : Type 0 where
    exposed : Exposed
    found : List Text
    offered : IsOffered exposed p.intents
    first :
        All
          (λ i.
            str_eq i.key.kind kind_expose ≡ true
            → (y : Exposed) × (decode i.payload ≡ some y) × (str_lt y.id exposed.id ≡ false))
          p.intents
    reached : (k : Text) → (elem k found ≡ true) ↔ Reaches p.edges exposed.unit k
    same_unit : plan.unit ≡ exposed.unit
    same_routes : plan.routes ≡ exposed.routes
    phased : IsPhased plan.steps
    checklist : IsChecklist found p.edges exposed (labels plan.expect)

  pub data IsDerived (p : Program) : Derived → Type 0 where
    planned : {plan : Plan} → IsPlanned p plan → IsDerived p (derived plan)
    unread : {id : Text} → IsUnread id p.intents → IsDerived p (refused (bad_payload id))
    no_gateway :
        All (λ i. str_eq i.key.kind kind_expose ≡ false) p.intents
        → IsDerived p (refused nothing_exposed)

  answer :
      (app : Text) (p : Program) (seed : List SeedRequest) (x : Exposed) (xs : List Exposed)
      → find_exposed upper decode p.intents ≡ gateways (x ∷ xs)
      → IsDerived p (derive_plan upper decode app p seed)
  unfolding derive_plan
  answer app p seed x xs h =
      let exposed : Exposed = least x xs in
      let (found, ends, distinct, reaches) = reachable_units_lem p.edges exposed.unit in
      rw (derive_plan, h, ends)
        (planned (record {
          exposed = exposed;
          found = found;
          offered =
              All-least (λ y. IsOffered y p.intents) x xs (found-IsOffered p.intents (x ∷ xs) h);
          first =
              find_exposed-All (λ y. str_lt y.id exposed.id ≡ false) p.intents (x ∷ xs) h
                (least-IsLeast x xs);
          reached = reaches;
          same_unit = refl;
          same_routes = refl;
          phased = sort_steps-IsPhased (map (step_of upper decode seed) exposed.routes);
          checklist = expectations-IsChecklist found p.edges exposed;
        }))

  -- Every answer of `DerivePlan`. A plan puts load on an offered gateway that no other precedes by id, all the others
  -- being readable; its steps keep the order of the phases, its checklist names no edge twice and has the gateway
  -- and the label of every edge of a unit that is a call, a subscription or the use of a store. An error names an unreadable gateway, or there is none at all; and
  -- the walk over the units ends.
  pub derive_plan-IsDerived :
      (app : Text) (p : Program) (seed : List SeedRequest)
      → IsDerived p (derive_plan upper decode app p seed)
  unfolding derive_plan
  derive_plan-IsDerived app p seed = elim (Found-cases (find_exposed upper decode p.intents)) [
    | inl ([], h) ↦ rw (derive_plan, h) (no_gateway (find_exposed-none p.intents h))
    | inl (x ∷ xs, h) ↦ answer app p seed x xs h
    | inr (id, h) ↦ rw (derive_plan, h) (unread (find_exposed-IsUnread p.intents id h))
  ]

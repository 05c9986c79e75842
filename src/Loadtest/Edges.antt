-- ===== src/Loadtest/Edges.antt =====
-- internal/loadtest/plan.go: what can be reached from the entry, and the edges along which `reachableUnits` goes.
use cloudcc.Base.{
  ◌≡◌, refl, sym, ap, ◌∙◌, subst, Bool, true, false, ◌&&◌, List, [], ◌∷◌, ◌++◌, Text, str_eq,
  str_eq_iff, elem, elem-append, if◌then◌else◌, arith, In, codes, Bool-cases, inl, inr, ◌↔◌,
}
use cloudcc.Loadtest.Reach.{
  Edge, kind_unit, edge_calls, edge_publishes, edge_subscribes, key_string, subscribers, next_units,
}

-- The units that the edges of a unit lead to.
unfoldable pub steps : List Edge → Text → List Edge → List Text
steps all unit [] = []
steps all unit (e ∷ es) =
    let rest = steps all unit es in
    if str_eq e.from.kind kind_unit && str_eq e.from.id unit then next_units all e ++ rest else rest

-- A unit can be reached: it is the entry, or a unit that can be reached has an edge of a call to it, or an edge of publishing
-- to a topic, to which the unit has an edge of subscribing. Edges of other things than units do not count.
pub data Reaches (es : List Edge) (entry : Text) : Text → Type 0 where
  start : Reaches es entry entry
  by_call :
      {a : Text} (e : Edge)
      → Reaches es entry a
      → In e es
      → e.from.kind ≡ kind_unit
      → e.from.id ≡ a
      → e.kind ≡ codes "calls"
      → Reaches es entry e.to.id
  by_message :
      {a : Text} (e f : Edge)
      → Reaches es entry a
      → In e es
      → e.from.kind ≡ kind_unit
      → e.from.id ≡ a
      → e.kind ≡ codes "publishes"
      → In f es
      → f.from.kind ≡ kind_unit
      → f.kind ≡ codes "subscribes"
      → key_string f.to ≡ key_string e.to
      → Reaches es entry f.from.id

iff_to : {b : Bool} {P : Type 0} → (b ≡ true) ↔ P → P → b ≡ true
iff_to h p = h.1 p

publishes_calls : str_eq edge_publishes edge_calls ≡ false
unfolding str_eq
publishes_calls = refl

-- The edges that subscribe.
elem-subscribers :
    (es : List Edge) (topic k : Text)
    → elem k (subscribers es topic) ≡ true
    → (f : Edge) × In f es
      × (f.from.kind ≡ kind_unit)
      × (f.kind ≡ codes "subscribes")
      × (key_string f.to ≡ topic)
      × (f.from.id ≡ k)
unfolding subscribers elem
elem-subscribers [] topic k h = absurd (ground (arith, h))
elem-subscribers (e ∷ es) topic k h = elim (Bool-cases (elem k (subscribers es topic))) [
  | inl later ↦
      let (f, i, u, s, t, here) = elem-subscribers es topic k later in (f, inr i, u, s, t, here)
  | inr now ↦ (
    e,
    inl refl,
    ground (arith, h, now, str_eq_iff e.from.kind kind_unit),
    ground (arith, h, now, str_eq_iff e.kind edge_subscribes),
    ground (arith, h, now, str_eq_iff (key_string e.to) topic),
    ground (arith, h, now, str_eq_iff k e.from.id),
  )
]

subscribers-elem :
    (es : List Edge) (topic : Text) (f : Edge)
    → In f es
    → f.from.kind ≡ kind_unit
    → f.kind ≡ codes "subscribes"
    → key_string f.to ≡ topic
    → elem f.from.id (subscribers es topic) ≡ true
unfolding subscribers elem
subscribers-elem [] topic f i u s t = elim i [ ]
subscribers-elem (e ∷ es) topic f (inl here) u s t =
    let u' = iff_to (str_eq_iff e.from.kind kind_unit) (ap (λ x. x.from.kind) (sym here) ∙ u) in
    let s' = iff_to (str_eq_iff e.kind edge_subscribes) (ap (λ x. x.kind) (sym here) ∙ s) in
    let t' =
      iff_to (str_eq_iff (key_string e.to) topic) (ap (λ x. key_string x.to) (sym here) ∙ t) in
    let v' = iff_to (str_eq_iff f.from.id e.from.id) (ap (λ x. x.from.id) here) in
    ground (arith, u', s', t', v')
subscribers-elem (e ∷ es) topic f (inr there) u s t =
    ground (arith, subscribers-elem es topic f there u s t)

-- One edge of the unit `a` leads to `k`.
elem-steps :
    (all : List Edge) (a : Text) (es : List Edge) (k : Text)
    → elem k (steps all a es) ≡ true
    → (e : Edge) × In e es
      × (e.from.kind ≡ kind_unit)
      × (e.from.id ≡ a)
      × (elem k (next_units all e) ≡ true)
unfolding steps elem
elem-steps all a [] k h = absurd (ground (arith, h))
elem-steps all a (e ∷ es) k h = elim (Bool-cases (elem k (steps all a es))) [
  | inl later ↦ let (f, i, u, s, n) = elem-steps all a es k later in (f, inr i, u, s, n)
  | inr now ↦
      let apart = elem-append k (next_units all e) (steps all a es) in
      (
        e,
        inl refl,
        ground (arith, h, now, str_eq_iff e.from.kind kind_unit),
        ground (arith, h, now, str_eq_iff e.from.id a),
        ground (arith, h, now, apart),
      )
]

pub steps-elem :
    (all : List Edge) (a : Text) (es : List Edge) (e : Edge) (k : Text)
    → In e es
    → e.from.kind ≡ kind_unit
    → e.from.id ≡ a
    → elem k (next_units all e) ≡ true
    → elem k (steps all a es) ≡ true
unfolding steps elem
steps-elem all a [] e k i u s n = elim i [ ]
steps-elem all a (d ∷ es) e k (inl here) u s n =
    let u' = iff_to (str_eq_iff d.from.kind kind_unit) (ap (λ x. x.from.kind) (sym here) ∙ u) in
    let s' = iff_to (str_eq_iff d.from.id a) (ap (λ x. x.from.id) (sym here) ∙ s) in
    let n' : elem k (next_units all d) ≡ true =
      ap (λ x. elem k (next_units all x)) (sym here) ∙ n in
    ground (arith, u', s', n', elem-append k (next_units all d) (steps all a es))
steps-elem all a (d ∷ es) e k (inr there) u s n =
    let later = steps-elem all a es e k there u s n in
    ground (arith, later, elem-append k (next_units all d) (steps all a es))

pub step_reaches :
    (es : List Edge) (entry a b : Text)
    → Reaches es entry a
    → elem b (steps es a es) ≡ true
    → Reaches es entry b
unfolding next_units elem
step_reaches es entry a b r h =
    let (e, i, u, s, n) = elem-steps es a es b h in
    elim (Bool-cases (str_eq e.kind edge_calls)) [
      | inl calls ↦
          let k : e.kind ≡ codes "calls" = ground (arith, calls, str_eq_iff e.kind edge_calls) in
          let here : e.to.id ≡ b = ground (arith, calls, n, str_eq_iff b e.to.id) in
          subst (Reaches es entry) here (by_call e r i u s k)
      | inr other ↦
          let k : e.kind ≡ codes "publishes" =
            ground (arith, other, n, str_eq_iff e.kind edge_publishes) in
          let m : elem b (subscribers es (key_string e.to)) ≡ true = ground (arith, other, n) in
          let (f, j, v, t, w, here) = elem-subscribers es (key_string e.to) b m in
          subst (Reaches es entry) here (by_message e f r i u s k j v t w)
    ]

pub calls-next_units :
    (all : List Edge) (e : Edge) → e.kind ≡ codes "calls" → elem e.to.id (next_units all e) ≡ true
unfolding next_units elem
calls-next_units all e k =
    let k' = iff_to (str_eq_iff e.kind edge_calls) k in
    ground (arith, k', str_eq_iff e.to.id e.to.id)

pub publishes-next_units :
    (all : List Edge) (e f : Edge)
    → e.kind ≡ codes "publishes"
    → In f all
    → f.from.kind ≡ kind_unit
    → f.kind ≡ codes "subscribes"
    → key_string f.to ≡ key_string e.to
    → elem f.from.id (next_units all e) ≡ true
unfolding next_units elem
publishes-next_units all e f k i u s t =
    let k' = iff_to (str_eq_iff e.kind edge_publishes) k in
    let no_call : str_eq e.kind edge_calls ≡ false =
      ap (λ x. str_eq x edge_calls) k ∙ publishes_calls in
    let there = subscribers-elem all (key_string e.to) f i u s t in
    ground (arith, k', no_call, there)

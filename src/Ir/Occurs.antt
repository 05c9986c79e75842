-- ===== src/Ir/Occurs.antt =====
-- internal/ir/expr.go: `RefsIn` finds the references that occur in a value.
use cloudcc.Base.{
  ◌≡◌, ◌↔◌, ◌⊎◌, refl, sym, subst, List, [], ◌∷◌, ◌++◌, str_lt, In, Bool-cases, inl, inr,
}
use cloudcc.Ir.Expr.{
  Ref, Expr, Exprs, Fields, plain, reference, override, interp, json_doc, object, items, no_exprs,
  expr, no_fields, field, Found, place_found, sort_found, all_refs, refs_in, refs_of, refs_by_field,
}

abbrev pub HasPart : Expr → Exprs → Type 0
HasPart v no_exprs = ⊥
HasPart v (expr w ws) = (w ≡ v) ⊎ HasPart v ws

abbrev pub HasField : Expr → Fields → Type 0
HasField v no_fields = ⊥
HasField v (field k w m) = (w ≡ v) ⊎ HasField v m

-- A reference occurs in a value, other than in the fallback of an override.
pub data Occurs (ref : Ref) : Expr → Type 0 where
  here : Occurs ref (reference ref)
  in_interp :
      {parts : Exprs} (v : Expr) → HasPart v parts → Occurs ref v → Occurs ref (interp parts)
  in_json : {v : Expr} → Occurs ref v → Occurs ref (json_doc v)
  in_object : {m : Fields} (v : Expr) → HasField v m → Occurs ref v → Occurs ref (object m)
  in_items : {vs : Exprs} (v : Expr) → HasPart v vs → Occurs ref v → Occurs ref (items vs)

In-append_iff : {A : Type 0} (x : A) (xs ys : List A) → In x (xs ++ ys) ↔ (In x xs ⊎ In x ys)
In-append_iff x [] ys = (λ i. inr i, λ i. elim i [ inl e ↦ elim e [ ] | inr j ↦ j ])
In-append_iff x (z ∷ zs) ys =
    let rest = In-append_iff x zs ys in
    (
      λ i. elim i [
        | inl e ↦ inl (inl e)
        | inr j ↦ elim (rest.0 j) [ inl a ↦ inl (inr a) | inr b ↦ inr b ]
      ],
      λ i. elim i [
        | inl (inl e) ↦ inl e
        | inl (inr a) ↦ inr (rest.1 (inl a))
        | inr b ↦ inr (rest.1 (inr b))
      ],
    )

In-place_found :
    (x : Ref) (f : Found) (gs : List Found)
    → In x (all_refs (place_found f gs)) ↔ (In x f.refs ⊎ In x (all_refs gs))
unfolding place_found all_refs
In-place_found x f [] = In-append_iff x f.refs []
In-place_found x f (g ∷ gs) =
    let rest = In-place_found x f gs in
    let new = In-append_iff x g.refs (all_refs (place_found f gs)) in
    let old = In-append_iff x g.refs (all_refs gs) in
    elim (Bool-cases (str_lt g.name f.name)) [
      | inl lt ↦ rw lt (
        λ i. elim (new.0 i) [
          | inl a ↦ inr (old.1 (inl a))
          | inr b ↦ elim (rest.0 b) [ inl c ↦ inl c | inr d ↦ inr (old.1 (inr d)) ]
        ],
        λ i. elim i [
          | inl c ↦ new.1 (inr (rest.1 (inl c)))
          | inr j ↦ elim (old.0 j) [ inl a ↦ new.1 (inl a) | inr d ↦ new.1 (inr (rest.1 (inr d))) ]
        ],
      )
      | inr ge ↦ rw ge (In-append_iff x f.refs (g.refs ++ all_refs gs))
    ]

In-sort_found : (x : Ref) (fs : List Found) → In x (all_refs (sort_found fs)) ↔ In x (all_refs fs)
unfolding sort_found all_refs
In-sort_found x [] = (λ i. i, λ i. i)
In-sort_found x (f ∷ fs) =
    let rest = In-sort_found x fs in
    let placed = In-place_found x f (sort_found fs) in
    let whole = In-append_iff x f.refs (all_refs fs) in
    (
      λ i. elim (placed.0 i) [ inl a ↦ whole.1 (inl a) | inr b ↦ whole.1 (inr (rest.0 b)) ],
      λ i. elim (whole.0 i) [ inl a ↦ placed.1 (inl a) | inr b ↦ placed.1 (inr (rest.1 b)) ],
    )

mutual
  unfolding refs_in refs_of refs_by_field all_refs

  found-Occurs : (x : Ref) (v : Expr) → In x (refs_in v) → Occurs x v
  found-Occurs x (plain s) i = elim i [ ]
  found-Occurs x (reference r) i = elim i [
    | inl e ↦ subst (λ y. Occurs x (reference y)) e here
    | inr j ↦ elim j [ ]
  ]
  found-Occurs x (override var fallback) i = elim i [ ]
  found-Occurs x (interp parts) i = let (v, h, o) = part-Occurs x parts i in in_interp v h o
  found-Occurs x (json_doc v) i = in_json (found-Occurs x v i)
  found-Occurs x (object m) i =
      let (v, h, o) = field-Occurs x m ((In-sort_found x (refs_by_field m)).0 i) in in_object v h o
  found-Occurs x (items vs) i = let (v, h, o) = part-Occurs x vs i in in_items v h o

  part-Occurs : (x : Ref) (vs : Exprs) → In x (refs_of vs) → (v : Expr) × HasPart v vs × Occurs x v
  part-Occurs x no_exprs i = elim i [ ]
  part-Occurs x (expr w ws) i = elim ((In-append_iff x (refs_in w) (refs_of ws)).0 i) [
    | inl a ↦ (w, inl refl, found-Occurs x w a)
    | inr b ↦ let (v, h, o) = part-Occurs x ws b in (v, inr h, o)
  ]

  field-Occurs :
      (x : Ref) (m : Fields)
      → In x (all_refs (refs_by_field m))
      → (v : Expr) × HasField v m × Occurs x v
  field-Occurs x no_fields i = elim i [ ]
  field-Occurs x (field k w m) i =
      elim ((In-append_iff x (refs_in w) (all_refs (refs_by_field m))).0 i) [
        | inl a ↦ (w, inl refl, found-Occurs x w a)
        | inr b ↦ let (v, h, o) = field-Occurs x m b in (v, inr h, o)
      ]

mutual
  unfolding refs_in refs_of refs_by_field all_refs

  Occurs-found : (x : Ref) (v : Expr) → Occurs x v → In x (refs_in v)
  Occurs-found x (plain s) o = elim o [ ]
  Occurs-found x (override var fallback) o = elim o [ ]
  Occurs-found x (reference r) here = inl refl
  Occurs-found x (interp parts) (in_interp v h o) = part-found x parts v h o
  Occurs-found x (json_doc v) (in_json o) = Occurs-found x v o
  Occurs-found x (object m) (in_object v h o) =
      (In-sort_found x (refs_by_field m)).1 (field-found x m v h o)
  Occurs-found x (items vs) (in_items v h o) = part-found x vs v h o

  part-found : (x : Ref) (vs : Exprs) (v : Expr) → HasPart v vs → Occurs x v → In x (refs_of vs)
  part-found x no_exprs v h o = elim h [ ]
  part-found x (expr w ws) v h o = (In-append_iff x (refs_in w) (refs_of ws)).1 (elim h [
    | inl e ↦ inl (Occurs-found x w (subst (Occurs x) (sym e) o))
    | inr j ↦ inr (part-found x ws v j o)
  ])

  field-found :
      (x : Ref) (m : Fields) (v : Expr)
      → HasField v m
      → Occurs x v
      → In x (all_refs (refs_by_field m))
  field-found x no_fields v h o = elim h [ ]
  field-found x (field k w m) v h o =
      (In-append_iff x (refs_in w) (all_refs (refs_by_field m))).1 (elim h [
        | inl e ↦ inl (Occurs-found x w (subst (Occurs x) (sym e) o))
        | inr j ↦ inr (field-found x m v j o)
      ])

pub In-refs_in : (x : Ref) (v : Expr) → In x (refs_in v) ↔ Occurs x v
In-refs_in x v = (found-Occurs x v, Occurs-found x v)

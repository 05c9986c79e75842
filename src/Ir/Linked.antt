-- ===== src/Ir/Linked.antt =====
-- internal/provider/aws/resolve.go: the edges that `linkReferences` makes of the references in a program.
use cloudcc.Base.{
  ◌≡◌, ◌≢◌, ◌⊎◌, refl, ap, ◌∙◌, subst, true, false, ◌&&◌, none, some, List, [], ◌∷◌, Text, codes,
  str_eq, str_eq_iff, put, fetch, fetch-put, In, if◌then◌else◌, arith, Bool-cases, Option-cases,
  inl, inr,
}
use cloudcc.Graph
use cloudcc.Graph.{Directed}
use cloudcc.Ir.Defs.{
  Key, Edge, key_string, edge_key, edge_depends_on, Program, resource, resources, connect,
}
use cloudcc.Ir.Expr.{Ref, Expr, refs_in, link_refs, link_exprs, link_resources, link_references}
use cloudcc.Ir.Occurs.{Occurs, In-refs_in}

-- A reference asks for a dependency edge: to another resource, which the program has.
abbrev pub IsAsked : {R : Type 0} → Directed R → Key → Ref → Edge → Type 0
IsAsked g from ref e =
    (e ≡ record { from = from; to = ref.key; kind = codes "depends_on" })
    × (ref.key ≢ from)
    × (Graph.get g (key_string ref.key) ≢ none)

key_ext : (j k : Key) → j.kind ≡ k.kind → j.id ≡ k.id → j ≡ k
key_ext j k a b = λ i. record { kind = a i; id = b i }

same_key-false : (j k : Key) → (str_eq j.kind k.kind && str_eq j.id k.id) ≡ false → j ≢ k
same_key-false j k h e =
    let a = (str_eq_iff j.kind k.kind).1 (ap (λ x. x.kind) e) in
    let b = (str_eq_iff j.id k.id).1 (ap (λ x. x.id) e) in ground (arith, h, a, b)

same_key-true : (j k : Key) → (str_eq j.kind k.kind && str_eq j.id k.id) ≡ true → j ≡ k
same_key-true j k h =
    key_ext j k ((str_eq_iff j.kind k.kind).0 (ground (arith, h)))
      ((str_eq_iff j.id k.id).0 (ground (arith, h)))

module _ {I R : Type 0} where
  -- The program `p'` is `p` with the wanted edges: the resources are the same; an edge that is there was there before, or
  -- is wanted and stands under its own key; no key is lost; and each wanted edge finds its key taken.
  pub record IsLinked (p p' : Program I R) (IsWanted : Edge → Type 0) : Type 0 where
    pub same : p'.resources ≡ p.resources
    pub sound :
        (k : Text) (e : Edge)
        → fetch k p'.edges ≡ some e
        → (fetch k p.edges ≡ some e) ⊎ (IsWanted e × (k ≡ edge_key e))
    pub kept : (k : Text) → fetch k p'.edges ≡ none → fetch k p.edges ≡ none
    pub complete : (e : Edge) → IsWanted e → fetch (edge_key e) p'.edges ≢ none

  nothing-IsLinked : (p : Program I R) (W : Edge → Type 0) → ((e : Edge) → W e → ⊥) → IsLinked p p W
  nothing-IsLinked p W n = record {
    same = refl;
    sound = λ k e h. inl h;
    kept = λ k h. h;
    complete = λ e w. absurd (n e w);
  }

  IsLinked-trans :
      (p q r : Program I R) (F G W : Edge → Type 0)
      → ((e : Edge) → F e → W e)
      → ((e : Edge) → G e → W e)
      → ((e : Edge) → W e → F e ⊎ G e)
      → IsLinked p q F
      → IsLinked q r G
      → IsLinked p r W
  IsLinked-trans p q r F G W f g s a b = record {
    same = b.same ∙ a.same;
    sound = λ k e h. elim (b.sound k e h) [
      | inl before ↦ elim (a.sound k e before) [ inl old ↦ inl old | inr (w, at) ↦ inr (f e w, at) ]
      | inr (w, at) ↦ inr (g e w, at)
    ];
    kept = λ k h. a.kept k (b.kept k h);
    complete = λ e w. elim (s e w) [
      | inl x ↦ λ h. a.complete e x (b.kept (edge_key e) h)
      | inr y ↦ b.complete e y
    ];
  }

  connect-IsLinked :
      (p : Program I R) (e : Edge) (W : Edge → Type 0)
      → W e
      → ((d : Edge) → W d → d ≡ e)
      → IsLinked p (record p { edges = put (edge_key e) e p.edges }) W
  connect-IsLinked p e W w only = record {
    same = refl;
    sound = λ k d h.
        let read = fetch-put k (edge_key e) e p.edges in
        elim (Bool-cases (str_eq k (edge_key e))) [
          | inl y ↦
              let same : e ≡ d = ground (arith, read, y, h) in
              inr (subst W same w, (str_eq_iff k (edge_key e)).0 y ∙ ap edge_key same)
          | inr n ↦ inl (ground (arith, read, n, h))
        ];
    kept = λ k h. ground (arith, fetch-put k (edge_key e) e p.edges, h);
    complete = λ d v h.
        let same = only d v in
        ground (
          arith,
          fetch-put (edge_key d) (edge_key e) e p.edges,
          (str_eq_iff (edge_key d) (edge_key e)).1 (ap edge_key same),
          h,
        );
  }

module _ {I R : Type 0} (intent_key : I → Key) (resource_key : R → Key) (props : R → Expr)
    (outputs : R → List Expr) where
  unfoldable link_one : Key → Ref → Program I R → Program I R
  unfolding connect
  link_one from ref p =
      let next : Program I R = elim (resource intent_key resource_key p ref.key) [
        | none ↦ p
        | some r ↦ connect intent_key resource_key p from ref.key edge_depends_on
      ] in
      if str_eq ref.key.kind from.kind && str_eq ref.key.id from.id then p else next

  link_one-IsLinked :
      (from : Key) (ref : Ref) (p : Program I R)
      → IsLinked p (link_one from ref p) (IsAsked p.resources from ref)
  unfolding link_one connect
  link_one-IsLinked from ref p =
      let W = IsAsked p.resources from ref in
      elim (Bool-cases (str_eq ref.key.kind from.kind && str_eq ref.key.id from.id)) [
        | inl own ↦ rw own (nothing-IsLinked p W (λ e w. w.1 (same_key-true ref.key from own)))
        | inr other ↦ elim (Option-cases (resource intent_key resource_key p ref.key)) [
          | inl absent ↦ rw (other, absent) (nothing-IsLinked p W (λ e w. w.2 absent))
          | inr (r, there) ↦
              rw (other, there)
                (connect-IsLinked p (record { from = from; to = ref.key; kind = edge_depends_on }) W
                  (refl, same_key-false ref.key from other, λ h. ground (arith, h, there))
                  (λ d w. w.0))
        ]
      ]

  -- The edges that references from a resource ask for.
  abbrev IsAskedBy : Directed R → Key → List Ref → Edge → Type 0
  IsAskedBy g from refs e = (ref : Ref) × In ref refs × IsAsked g from ref e

  link_refs-IsLinked :
      (from : Key) (refs : List Ref) (p : Program I R)
      → IsLinked p
          (link_refs intent_key resource_key props outputs from refs p)
          (IsAskedBy p.resources from refs)
  unfolding link_refs link_one
  link_refs-IsLinked from [] p =
      nothing-IsLinked p (IsAskedBy p.resources from []) (λ e (ref, i, w). i)
  link_refs-IsLinked from (ref ∷ refs) p =
      let q = link_one from ref p in
      let one = link_one-IsLinked from ref p in
      IsLinked-trans p q _ (IsAsked p.resources from ref) (IsAskedBy p.resources from refs)
        (IsAskedBy p.resources from (ref ∷ refs)) (λ e w. (ref, inl refl, w))
        (λ e (x, i, w). (x, inr i, w))
        (λ e (x, i, w). elim i [
          | inl here ↦ inl (subst (λ y. IsAsked p.resources from y e) here w)
          | inr j ↦ inr (x, j, w)
        ])
        one
        (subst
          (λ g.
            IsLinked q (link_refs intent_key resource_key props outputs from refs q)
              (IsAskedBy g from refs))
          one.same (link_refs-IsLinked from refs q))

  -- The edges that values of a resource ask for, by a reference that occurs in one of them.
  abbrev pub IsAskedIn : Directed R → Key → List Expr → Edge → Type 0
  IsAskedIn g from vs e = (v : Expr) × In v vs × (ref : Ref) × Occurs ref v × IsAsked g from ref e

  link_exprs-IsLinked :
      (from : Key) (vs : List Expr) (p : Program I R)
      → IsLinked p
          (link_exprs intent_key resource_key props outputs from vs p)
          (IsAskedIn p.resources from vs)
  unfolding link_exprs
  link_exprs-IsLinked from [] p =
      nothing-IsLinked p (IsAskedIn p.resources from []) (λ e (v, i, ref, o, w). i)
  link_exprs-IsLinked from (v ∷ vs) p =
      let q = link_refs intent_key resource_key props outputs from (refs_in v) p in
      let one = link_refs-IsLinked from (refs_in v) p in
      IsLinked-trans p q _ (IsAskedBy p.resources from (refs_in v)) (IsAskedIn p.resources from vs)
        (IsAskedIn p.resources from (v ∷ vs))
        (λ e (ref, i, w). (v, inl refl, ref, (In-refs_in ref v).0 i, w))
        (λ e (u, i, ref, o, w). (u, inr i, ref, o, w))
        (λ e (u, i, ref, o, w). elim i [
          | inl here ↦ inl (ref, (In-refs_in ref v).1 (subst (Occurs ref) here o), w)
          | inr j ↦ inr (u, j, ref, o, w)
        ])
        one
        (subst
          (λ g.
            IsLinked q (link_exprs intent_key resource_key props outputs from vs q)
              (IsAskedIn g from vs))
          one.same (link_exprs-IsLinked from vs q))

  -- The edges that the resources of a list ask for, by their properties and their outputs.
  abbrev pub IsDemanded : Directed R → List R → Edge → Type 0
  IsDemanded g rs e = (r : R) × In r rs × IsAskedIn g (resource_key r) (props r ∷ outputs r) e

  link_resources-IsLinked :
      (rs : List R) (p : Program I R)
      → IsLinked p
          (link_resources intent_key resource_key props outputs rs p)
          (IsDemanded p.resources rs)
  unfolding link_resources
  link_resources-IsLinked [] p = nothing-IsLinked p (IsDemanded p.resources []) (λ e (r, i, w). i)
  link_resources-IsLinked (r ∷ rs) p =
      let own = props r ∷ outputs r in
      let q = link_exprs intent_key resource_key props outputs (resource_key r) own p in
      let one = link_exprs-IsLinked (resource_key r) own p in
      IsLinked-trans p q _ (IsAskedIn p.resources (resource_key r) own) (IsDemanded p.resources rs)
        (IsDemanded p.resources (r ∷ rs)) (λ e w. (r, inl refl, w)) (λ e (x, i, w). (x, inr i, w))
        (λ e (x, i, w). elim i [
          | inl here ↦
              inl
                (subst (λ y. IsAskedIn p.resources (resource_key y) (props y ∷ outputs y) e) here w)
          | inr j ↦ inr (x, j, w)
        ])
        one
        (subst
          (λ g.
            IsLinked q (link_resources intent_key resource_key props outputs rs q)
              (IsDemanded g rs))
          one.same (link_resources-IsLinked rs q))

  -- `linkReferences` leaves the resources as they are and adds the dependency edges that the references in the properties and outputs of
  -- the resources ask for, those in the fallbacks of overrides aside: an edge to each other resource that the program has and to which a
  -- reference occurs. An edge that is there afterwards was there before or is one of these, under its own key.
  pub link_references-IsLinked :
      (p : Program I R)
      → IsLinked p
          (link_references intent_key resource_key props outputs p)
          (IsDemanded p.resources (resources intent_key resource_key p))
  unfolding link_references
  link_references-IsLinked p = link_resources-IsLinked (resources intent_key resource_key p) p

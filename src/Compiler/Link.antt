-- ===== src/Compiler/Link.antt =====
-- internal/compiler/compiler.go: the second loop of `Schedule`, which turns dependencies into edges.
use cloudcc.Base.{
  ◌≡◌, refl, Bool, true, false, ◌||◌, ◌&&◌, List, [], ◌∷◌, arith, Text, str_eq, elem, str_eq_iff,
  Option-cases, Bool-cases, inl, inr, ◌∙◌, sym, subst,
}
use cloudcc.Graph.Linked.{IsLinked, IsLinked-refl, IsLinked-trans, connect-IsLinked, has-nodes}
use cloudcc.Graph.{Directed, has, connect}
use cloudcc.Graph.Shape.{connect-eq-none}
use cloudcc.Compiler.Defs.{Plugin, Result, ok, err, Error, unknown_plugin, link_deps, link, ◌>>=◌}
use cloudcc.Compiler.Register.{names}

-- Whether a plugin of the list bears the name `b` and declares the dependency `a`.
unfoldable pub depends : {C : Type 0} → List (Plugin C) → Text → Text → Bool
depends [] a b = false
depends (p ∷ ps) a b = (str_eq b p.name && elem a p.deps) || depends ps a b

-- The edge that an error is about was declared, and its source is no node.
pub record IsUnknown {C : Type 0} (g : Directed (Plugin C)) (new : Text → Text → Bool) (e : Error)
    : Type 0 where
  pub plugin : Text
  pub dep : Text
  pub error : e ≡ unknown_plugin plugin dep
  pub declared : new dep plugin ≡ true
  pub unknown : has g dep ≡ false

abbrev pub LinkPromise :
    {C : Type 0}
    → Directed (Plugin C)
    → (Text → Text → Bool)
    → Result (Directed (Plugin C))
    → Type 0
LinkPromise g new (ok g') = IsLinked g g' new
LinkPromise g new (err e) = IsUnknown g new e

module _ {C : Type 0} where
  -- A step behind a connection that succeeded.
  behind :
      (g g₁ : Directed (Plugin C)) (p q r : Text → Text → Bool) (x : Result (Directed (Plugin C)))
      → IsLinked g g₁ p
      → LinkPromise g₁ q x
      → ((a b : Text) → r a b ≡ (p a b || q a b))
      → LinkPromise g r x
  behind g g₁ p q r (ok h) l m e = IsLinked-trans g g₁ h p q r l m e
  behind g g₁ p q r (err x) l m e = record {
    plugin = m.plugin;
    dep = m.dep;
    error = m.error;
    declared = ground (arith, e m.dep m.plugin, m.declared);
    unknown = sym (has-nodes g g₁ m.dep l.same_nodes) ∙ m.unknown;
  }

  link_deps-Promise :
      (name : Text) (deps : List Text) (g : Directed (Plugin C))
      → has g name ≡ true
      → LinkPromise g (λ a b. str_eq b name && elem a deps) (link_deps name deps g)
  unfolding link_deps elem
  link_deps-Promise name [] g h = IsLinked-refl g _ (λ a b. ground arith)
  link_deps-Promise name (d ∷ ds) g h = elim (Bool-cases (has g d)) [
    | inr absent ↦
        let refused : link_deps name (d ∷ ds) g ≡ err (unknown_plugin name d) = ground arith in
        subst (LinkPromise g (λ a b. str_eq b name && elem a (d ∷ ds))) (sym refused) (record {
          plugin = name;
          dep = d;
          error = refl;
          declared = ground (arith, str_eq_iff name name, str_eq_iff d d);
          unknown = absent;
        })
    | inl known ↦ elim (Option-cases (connect g d name)) [
      | inl e ↦ absurd (ground (arith, (connect-eq-none g d name).0 e))
      | inr (g₁, e) ↦
          let joined = connect-IsLinked g d name e in
          let goes_on : link_deps name (d ∷ ds) g ≡ link_deps name ds g₁ = ground arith in
          subst (LinkPromise g (λ a b. str_eq b name && elem a (d ∷ ds))) (sym goes_on) (
            behind g g₁ (λ a b. str_eq b name && str_eq a d) (λ a b. str_eq b name && elem a ds) _ _
              joined (link_deps-Promise name ds g₁ (has-nodes g g₁ name joined.same_nodes ∙ h))
              (λ a b. ground arith))
    ]
  ]

  link_rest :
      (p : Plugin C) (ps : List (Plugin C)) (g : Directed (Plugin C))
      (r : Result (Directed (Plugin C)))
      → LinkPromise g (λ a b. str_eq b p.name && elem a p.deps) r
      → ((g₁ : Directed (Plugin C)) → g₁.nodes ≡ g.nodes → LinkPromise g₁ (depends ps) (link ps g₁))
      → LinkPromise g (depends (p ∷ ps)) (r >>= λ g₁. link ps g₁)
  unfolding depends
  link_rest p ps g (ok g₁) here later =
      behind g g₁ _ (depends ps) _ (link ps g₁) here (later g₁ here.same_nodes) (λ a b. refl)
  link_rest p ps g (err e) here later = record {
    plugin = here.plugin;
    dep = here.dep;
    error = here.error;
    declared = ground (arith, here.declared);
    unknown = here.unknown;
  }

  -- The second loop adds exactly the declared edges, or names one whose source is no node. It does
  -- not reach the panic of `Connect`.
  pub link-Promise :
      (ps : List (Plugin C)) (g : Directed (Plugin C))
      → ((k : Text) → elem k (names ps) ≡ true → has g k ≡ true)
      → LinkPromise g (depends ps) (link ps g)
  unfolding link
  link-Promise [] g known = IsLinked-refl g _ (λ a b. unfold depends in refl)
  link-Promise (p ∷ ps) g known =
      link_rest p ps g (link_deps p.name p.deps g)
        (link_deps-Promise p.name p.deps g
          (known p.name (unfold elem in ground (arith, str_eq_iff p.name p.name))))
        (λ g₁ e.
          link-Promise ps g₁ (λ k h. has-nodes g g₁ k e ∙ known k (unfold elem in ground arith)))

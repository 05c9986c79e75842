-- ===== src/Ir/Refs.antt =====
-- internal/ir/expr.go: which references `ContainsRef` and `RefsIn` find.
use cloudcc.Base.{◌≡◌, refl, sym, ap, ◌∙◌, Bool, true, false, ◌||◌, List, [], ◌∷◌, ◌++◌, arith}
use cloudcc.Ir.Expr.{
  Ref, Expr, Exprs, Fields, plain, reference, override, interp, json_doc, object, items, no_exprs,
  expr, no_fields, field, contains_ref, any_contains, field_contains, Found, place_found,
  sort_found, all_refs, refs_in, refs_of, refs_by_field,
}

unfoldable pub is_some : List Ref → Bool
is_some [] = false
is_some (r ∷ rs) = true

-- Whether a reference stands in the fallback of an override.
unfoldable mutual
  pub hides_ref : Expr → Bool
  hides_ref (plain s) = false
  hides_ref (reference r) = false
  hides_ref (override var fallback) = contains_ref fallback
  hides_ref (interp parts) = any_hides parts
  hides_ref (json_doc v) = hides_ref v
  hides_ref (object m) = field_hides m
  hides_ref (items vs) = any_hides vs

  pub any_hides : Exprs → Bool
  any_hides no_exprs = false
  any_hides (expr v vs) = hides_ref v || any_hides vs

  pub field_hides : Fields → Bool
  field_hides no_fields = false
  field_hides (field k v m) = hides_ref v || field_hides m

is_some-append : (xs ys : List Ref) → is_some (xs ++ ys) ≡ (is_some xs || is_some ys)
unfolding is_some
is_some-append [] ys = refl
is_some-append (x ∷ xs) ys = refl

is_some-place_found :
    (f : Found) (gs : List Found)
    → is_some (all_refs (place_found f gs)) ≡ (is_some f.refs || is_some (all_refs gs))
unfolding place_found all_refs
is_some-place_found f [] = is_some-append f.refs []
is_some-place_found f (g ∷ gs) = ground (
  arith,
  is_some-place_found f gs,
  is_some-append g.refs (all_refs (place_found f gs)),
  is_some-append g.refs (all_refs gs),
  is_some-append f.refs (g.refs ++ all_refs gs),
)

is_some-sort_found : (fs : List Found) → is_some (all_refs (sort_found fs)) ≡ is_some (all_refs fs)
unfolding sort_found all_refs
is_some-sort_found [] = refl
is_some-sort_found (f ∷ fs) = ground (
  arith,
  is_some-place_found f (sort_found fs),
  is_some-sort_found fs,
  is_some-append f.refs (all_refs fs),
)

mutual
  unfolding contains_ref any_contains field_contains refs_in refs_of refs_by_field hides_ref
      any_hides field_hides is_some all_refs

  contains-found : (v : Expr) → contains_ref v ≡ (is_some (refs_in v) || hides_ref v)
  contains-found (plain s) = refl
  contains-found (reference r) = refl
  contains-found (override var fallback) = refl
  contains-found (interp parts) = any-found parts
  contains-found (json_doc v) = contains-found v
  contains-found (object m) =
      field-found m ∙ ap (λ b. b || field_hides m) (sym (is_some-sort_found (refs_by_field m)))
  contains-found (items vs) = any-found vs

  any-found : (vs : Exprs) → any_contains vs ≡ (is_some (refs_of vs) || any_hides vs)
  any-found no_exprs = refl
  any-found (expr v vs) =
      ground (arith, contains-found v, any-found vs, is_some-append (refs_in v) (refs_of vs))

  field-found :
      (m : Fields) → field_contains m ≡ (is_some (all_refs (refs_by_field m)) || field_hides m)
  field-found no_fields = refl
  field-found (field k v m) = ground (
    arith,
    contains-found v,
    field-found m,
    is_some-append (refs_in v) (all_refs (refs_by_field m)),
  )

-- `ContainsRef` sees a reference exactly if `RefsIn` finds one, or one stands in the fallback of an override, where
-- `RefsIn` does not look.
pub contains_ref-refs_in : (v : Expr) → contains_ref v ≡ (is_some (refs_in v) || hides_ref v)
contains_ref-refs_in v = contains-found v

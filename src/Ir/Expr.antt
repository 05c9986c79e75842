-- ===== src/Ir/Expr.antt =====
-- internal/ir/expr.go: the values of resource properties, with their references; and `linkReferences` of
-- internal/provider/aws/resolve.go, which turns the references into edges.
use cloudcc.Base.{
  Bool, true, false, ◌&&◌, ◌||◌, none, some, List, [], ◌∷◌, ◌++◌, Text, str_eq, str_lt,
  if◌then◌else◌,
}
use cloudcc.Ir.Defs.{Key, edge_depends_on, Program, resource, resources, connect}

pub record Ref : Type 0 where
  pub key : Key
  pub prop : Text

-- `any`, as a resolver fills it. `plain` is every value that holds no other: a text, a number, a truth value, or what the
-- backend emits as it is. The fields of an object are a Go map.
mutual
  pub data Expr : Type 0 where
    plain : Text → Expr
    reference : Ref → Expr
    override : Text → Expr → Expr
    interp : Exprs → Expr
    json_doc : Expr → Expr
    object : Fields → Expr
    items : Exprs → Expr

  pub data Exprs : Type 0 where
    no_exprs : Exprs
    expr : Expr → Exprs → Exprs

  pub data Fields : Type 0 where
    no_fields : Fields
    field : Text → Expr → Fields → Fields

unfoldable mutual
  pub contains_ref : Expr → Bool
  contains_ref (plain s) = false
  contains_ref (reference r) = true
  contains_ref (override var fallback) = contains_ref fallback
  contains_ref (interp parts) = any_contains parts
  contains_ref (json_doc v) = contains_ref v
  contains_ref (object m) = field_contains m
  contains_ref (items vs) = any_contains vs

  pub any_contains : Exprs → Bool
  any_contains no_exprs = false
  any_contains (expr v vs) = contains_ref v || any_contains vs

  pub field_contains : Fields → Bool
  field_contains no_fields = false
  field_contains (field k v m) = contains_ref v || field_contains m

-- The references of a field, under its name.
pub record Found : Type 0 where
  pub name : Text
  pub refs : List Ref

-- `sortedMapKeys`, on the fields with what is found in them.
unfoldable pub place_found : Found → List Found → List Found
unfolding str_lt
place_found f [] = f ∷ []
place_found f (g ∷ gs) =
    let rest = place_found f gs in if str_lt g.name f.name then g ∷ rest else f ∷ g ∷ gs

unfoldable pub sort_found : List Found → List Found
unfolding place_found
sort_found [] = []
sort_found (f ∷ fs) = place_found f (sort_found fs)

unfoldable pub all_refs : List Found → List Ref
all_refs [] = []
all_refs (f ∷ fs) = f.refs ++ all_refs fs

-- `walk` of `RefsIn`, which has no case for `EnvOverride`.
unfoldable mutual
  pub refs_in : Expr → List Ref
  refs_in (plain s) = []
  refs_in (reference r) = r ∷ []
  refs_in (override var fallback) = []
  refs_in (interp parts) = refs_of parts
  refs_in (json_doc v) = refs_in v
  refs_in (object m) = all_refs (sort_found (refs_by_field m))
  refs_in (items vs) = refs_of vs

  pub refs_of : Exprs → List Ref
  refs_of no_exprs = []
  refs_of (expr v vs) = refs_in v ++ refs_of vs

  pub refs_by_field : Fields → List Found
  refs_by_field no_fields = []
  refs_by_field (field k v m) = record { name = k; refs = refs_in v } ∷ refs_by_field m

module _ {I R : Type 0} (intent_key : I → Key) (resource_key : R → Key) (props : R → Expr)
    (outputs : R → List Expr) where
  -- `ref.Key == res.Key()`, and the test that the resource is there.
  unfoldable pub link_refs : Key → List Ref → Program I R → Program I R
  unfolding connect
  link_refs from [] p = p
  link_refs from (ref ∷ refs) p =
      let own = str_eq ref.key.kind from.kind && str_eq ref.key.id from.id in
      let next : Program I R = elim (resource intent_key resource_key p ref.key) [
        | none ↦ p
        | some r ↦ connect intent_key resource_key p from ref.key edge_depends_on
      ] in
      link_refs from refs (if own then p else next)

  unfoldable pub link_exprs : Key → List Expr → Program I R → Program I R
  unfolding link_refs refs_in
  link_exprs from [] p = p
  link_exprs from (v ∷ vs) p = link_exprs from vs (link_refs from (refs_in v) p)

  unfoldable pub link_resources : List R → Program I R → Program I R
  unfolding link_exprs
  link_resources [] p = p
  link_resources (r ∷ rs) p =
      link_resources rs (link_exprs (resource_key r) (props r ∷ outputs r) p)

  unfoldable pub link_references : Program I R → Program I R
  unfolding link_resources
  link_references p = link_resources (resources intent_key resource_key p) p

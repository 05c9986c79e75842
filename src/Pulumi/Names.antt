-- ===== src/Pulumi/Names.antt =====
-- internal/iac/pulumi_ts/expr.go and render.go: `varNamer`, which gives each resource the name of its constant. A parameter is
-- `decimal`, the printing of a number by `fmt`. The search for a free name runs on fuel.
use cloudcc.Base.{
  ℕ, zero, suc, Option, none, some, List, [], ◌∷◌, ◌++◌, Text, codes, elem, length, if◌then◌else◌,
  put, fetch,
}
use cloudcc.Sanitize.Identifier.{identifier}
use cloudcc.Ir.Defs.{Key, key_string}

-- `taken` is a set.
pub record Namer : Type 0 where
  pub names : List (Text × Text)
  pub taken : List Text

abbrev pub new_var_namer : Namer
new_var_namer = record { names = []; taken = [] }

abbrev pub get : Namer → Key → Option Text
get v key = fetch (key_string key) v.names

abbrev pub reserve : Namer → Text → Namer
reserve v name = record v { taken = name ∷ v.taken }

module _ (decimal : ℕ → Text) where
  -- `for i := 2; v.taken[name]; i++`, from any `i` and name on.
  unfoldable pub search : ℕ → Text → Text → ℕ → List Text → Option Text
  unfolding elem
  search zero base name i taken = if elem name taken then none else some name
  search (suc fuel) base name i taken =
      let rest = search fuel base (base ++ decimal i) (suc i) taken in
      if elem name taken then rest else some name

  -- The names are as many as those that are taken, and one more.
  unfoldable pub assign : Namer → Key → Text → Option (Text × Namer)
  unfolding search put fetch identifier
  assign v key suffix =
      let base = identifier (key.id ++ codes "-" ++ suffix) in
      elim (fetch (key_string key) v.names) [
        | some existing ↦ some (existing, v)
        | none ↦ elim (search (length v.taken) base base 2 v.taken) [
          | none ↦ none
          | some name ↦
              some
                (name, record { names = put (key_string key) name v.names; taken = name ∷ v.taken })
        ]
      ]

  -- The loops of `renderIndex` over the names that no resource may take, and over the resources with their suffixes.
  unfoldable pub assign_all : Namer → List (Key × Text) → Option Namer
  unfolding assign
  assign_all v [] = some v
  assign_all v ((key, suffix) ∷ keys) = elim (assign v key suffix) [
    | none ↦ none
    | some (name, v') ↦ assign_all v' keys
  ]

  abbrev pub reserved_names : List Text
  reserved_names = codes "pulumi" ∷ codes "aws" ∷ codes "config" ∷ []

  abbrev pub reserve_all : Namer → List Text → Namer
  reserve_all v [] = v
  reserve_all v (name ∷ names) = reserve_all (reserve v name) names

  unfoldable pub name_resources : List (Key × Text) → Option Namer
  unfolding assign_all
  name_resources keys = assign_all (reserve_all new_var_namer reserved_names) keys

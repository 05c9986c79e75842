-- ===== src/Config/Resource.antt =====
-- internal/config/config.go: `ResourceConfig` and `Merge`. A nil map of strings and an empty one, which only the
-- YAML encoder could tell apart and does not, are both the empty list.
use cloudcc.Base.{
  Bool, true, false, Option, none, some, List, [], ◌∷◌, Text, if◌then◌else◌, put, fetch, codes,
}
use cloudcc.Base.Int.{ℤ, pos, is_zero}
use cloudcc.Config.Value.{Value, text, other, seq, block, nil, cons, Entries, get_entry, deep_merge}

pub record ResourceConfig : Type 0 where
  pub type : Text
  pub environment_variables : List (Text × Text)
  pub secret : Bool
  pub value : Text
  pub retention_days : ℤ
  pub static_files : Text
  pub shared_files : Text
  pub index_document : Text
  pub memory : ℤ
  pub platform : Text
  pub timeout : ℤ
  pub provider_args : List (Text × Option Entries)
  pub pulumi_params : Option Entries

-- The zero value of the struct.
abbrev pub blank : ResourceConfig
blank = record {
  type = [];
  environment_variables = [];
  secret = false;
  value = [];
  retention_days = pos 0;
  static_files = [];
  shared_files = [];
  index_document = [];
  memory = pos 0;
  platform = [];
  timeout = pos 0;
  provider_args = [];
  pulumi_params = none;
}

-- `if over != "" { out = over }`, and the same for a number.
abbrev pub stronger : Text → Text → Text
stronger base [] = base
stronger base (c ∷ over) = c ∷ over

abbrev pub stronger_int : ℤ → ℤ → ℤ
stronger_int base over = if is_zero over then base else over

-- Every pair of `over`, written over `base`.
unfoldable pub merge_string_map : List (Text × Text) → List (Text × Text) → List (Text × Text)
unfolding put
merge_string_map base [] = base
merge_string_map base ((k, v) ∷ over) = put k v (merge_string_map base over)

-- `out[resource] = DeepMerge(nil, args)` for each block of `base`, a copy; then for each of `over`
-- a merge with what is there.
abbrev pub held : Option (Option Entries) → Option Entries
held none = none
held (some es) = es

unfoldable pub copy_args : List (Text × Option Entries) → List (Text × Option Entries)
unfolding deep_merge
copy_args [] = []
copy_args ((k, args) ∷ base) = (k, deep_merge none args) ∷ copy_args base

unfoldable pub merge_args :
    List (Text × Option Entries) → List (Text × Option Entries) → List (Text × Option Entries)
unfolding deep_merge put fetch
merge_args out [] = out
merge_args out ((k, args) ∷ over) =
    let rest = merge_args out over in put k (deep_merge (held (fetch k rest)) args) rest

unfoldable pub merge_provider_args :
    List (Text × Option Entries) → List (Text × Option Entries) → List (Text × Option Entries)
unfolding copy_args merge_args
merge_provider_args base over = merge_args (copy_args base) over

-- `rc.Merge(over)`: `over` is the stronger layer.
unfoldable pub merge : ResourceConfig → ResourceConfig → ResourceConfig
merge rc over = record {
  type = stronger rc.type over.type;
  environment_variables = merge_string_map rc.environment_variables over.environment_variables;
  secret = if over.secret then true else rc.secret;
  value = stronger rc.value over.value;
  retention_days = stronger_int rc.retention_days over.retention_days;
  static_files = stronger rc.static_files over.static_files;
  shared_files = stronger rc.shared_files over.shared_files;
  index_document = stronger rc.index_document over.index_document;
  memory = stronger_int rc.memory over.memory;
  platform = stronger rc.platform over.platform;
  timeout = stronger_int rc.timeout over.timeout;
  provider_args = merge_provider_args rc.provider_args over.provider_args;
  pulumi_params = deep_merge rc.pulumi_params over.pulumi_params;
}

-- `block["architectures"].([]any)` and then its first item as a string.
abbrev first_name : Option Value → Option Text
first_name none = none
first_name (some (text s)) = none
first_name (some (other s)) = none
first_name (some (block es)) = none
first_name (some (seq nil)) = none
first_name (some (seq (cons (text s) xs))) = some s
first_name (some (seq (cons (other s) xs))) = none
first_name (some (seq (cons (seq ys) xs))) = none
first_name (some (seq (cons (block es) xs))) = none

unfoldable pub architecture_of : List (Text × Option Entries) → Text
unfolding get_entry
architecture_of [] = []
architecture_of ((resource, args) ∷ blocks) =
    let rest = architecture_of blocks in
    elim args [
      | none ↦ rest
      | some es ↦ elim (first_name (get_entry (codes "architectures") es)) [
        | none ↦ rest
        | some s ↦ s
      ]
    ]

-- The iteration order of the map does not matter, since a unit has one block that names it.
unfoldable pub architecture : ResourceConfig → Text
unfolding architecture_of
architecture rc = architecture_of rc.provider_args

-- ===== src/Config/Value.antt =====
-- internal/config/config.go: the untyped values of a YAML document, and `DeepMerge`.
use cloudcc.Base.{◌≡◌, Option, none, some, Text, str_eq, if◌then◌else◌}

-- `any`, as a YAML document fills it. `other` is a scalar that is no string, by its source text. The
-- entries of a block are a Go map, so their keys are different (`IsMap`). The decoder gives `map[any]any` for a block with a
-- key that is no string; such a block has no case here.
mutual
  pub data Value : Type 0 where
    text : Text → Value
    other : Text → Value
    seq : Items → Value
    block : Entries → Value

  pub data Items : Type 0 where
    nil : Items
    cons : Value → Items → Items

  pub data Entries : Type 0 where
    end : Entries
    entry : Text → Value → Entries → Entries

unfoldable pub get_entry : Text → Entries → Option Value
get_entry k end = none
get_entry k (entry j v es) = if str_eq k j then some v else get_entry k es

unfoldable pub put_entry : Text → Value → Entries → Entries
put_entry k v end = entry k v end
put_entry k v (entry j w es) = if str_eq k j then entry k v es else entry j w (put_entry k v es)

-- The loop of `DeepMerge` over the entries of `over`, and its test on the two values of one key. Go
-- leaves the order of the iteration open; here the last entry is written first.
unfoldable mutual
  pub merge_entries : Entries → Entries → Entries
  merge_entries base end = base
  merge_entries base (entry k v over) =
      let out = merge_entries base over in put_entry k (merge_value (get_entry k out) v) out

  pub merge_value : Option Value → Value → Value
  merge_value old (text s) = text s
  merge_value old (other s) = other s
  merge_value old (seq xs) = seq xs
  merge_value old (block om) = elim old [
    | none ↦ block om
    | some (text s) ↦ block om
    | some (other s) ↦ block om
    | some (seq xs) ↦ block om
    | some (block bm) ↦ block (merge_entries bm om)
  ]

-- `none` is the nil map.
unfoldable pub deep_merge : Option Entries → Option Entries → Option Entries
unfolding merge_entries merge_value get_entry put_entry
deep_merge none none = none
deep_merge (some base) none = some base
deep_merge none (some over) = some (merge_entries end over)
deep_merge (some base) (some over) = some (merge_entries base over)

-- The keys of every map in the value are different.
abbrev mutual
  pub IsMap : Entries → Type 0
  IsMap end = Unit {0}
  IsMap (entry k v es) = (get_entry k es ≡ none) × IsMapValue v × IsMap es

  pub IsMapValue : Value → Type 0
  IsMapValue (text s) = Unit {0}
  IsMapValue (other s) = Unit {0}
  IsMapValue (seq xs) = Unit {0}
  IsMapValue (block es) = IsMap es

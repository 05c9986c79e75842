-- ===== src/Config/Maps.antt =====
-- internal/config/config.go: `DeepMerge` of maps whose keys are different gives such a map.
use cloudcc.Base.{
  ◌≡◌, refl, ap, ◌∙◌, Option, none, some, Text, str_eq, str_eq_iff, arith, Option-cases, Bool-cases,
  inl, inr,
}
use cloudcc.Config.Value.{
  Value, text, other, seq, block, Entries, end, entry, get_entry, put_entry, merge_entries,
  merge_value, deep_merge, IsMap, IsMapValue,
}
use cloudcc.Config.Paths.{get-put, IsMap-get}

abbrev pub AreMap : Option Entries → Type 0
AreMap none = Unit {0}
AreMap (some es) = IsMap es

put_entry-IsMap :
    (k : Text) (v : Value) (es : Entries) → IsMapValue v → IsMap es → IsMap (put_entry k v es)
unfolding put_entry get_entry
put_entry-IsMap k v end h m = (refl, h, tt)
put_entry-IsMap k v (entry j w es) h (fresh, inner, rest) = elim (Bool-cases (str_eq k j)) [
  | inl y ↦
      let same : k ≡ j = (str_eq_iff k j).0 y in
      rw y (ap (λ x. get_entry x es) same ∙ fresh, h, rest)
  | inr n ↦ rw n (
    ground (arith, get-put j k v es, fresh, n, str_eq_iff k j, str_eq_iff j k),
    inner,
    put_entry-IsMap k v es h rest,
  )
]

abbrev IsOldMap : Option Value → Type 0
IsOldMap none = Unit {0}
IsOldMap (some v) = IsMapValue v

get_entry-IsOldMap : (k : Text) (es : Entries) → IsMap es → IsOldMap (get_entry k es)
get_entry-IsOldMap k es m = elim (Option-cases (get_entry k es)) [
  | inl e ↦ rw e tt
  | inr (v, e) ↦ rw e (IsMap-get k es m e)
]

mutual
  unfolding merge_entries merge_value

  merge_entries-IsMap :
      (base over : Entries) → IsMap base → IsMap over → IsMap (merge_entries base over)
  merge_entries-IsMap base end b o = b
  merge_entries-IsMap base (entry k v over) b (fresh, inner, rest) =
      let out = merge_entries base over in
      let good : IsMap out = merge_entries-IsMap base over b rest in
      put_entry-IsMap k (merge_value (get_entry k out) v) out
        (merge_value-IsMap (get_entry k out) v (get_entry-IsOldMap k out good) inner) good

  merge_value-IsMap :
      (old : Option Value) (v : Value)
      → IsOldMap old
      → IsMapValue v
      → IsMapValue (merge_value old v)
  merge_value-IsMap old (text s) b m = tt
  merge_value-IsMap old (other s) b m = tt
  merge_value-IsMap old (seq xs) b m = tt
  merge_value-IsMap none (block es) b m = m
  merge_value-IsMap (some (text s)) (block es) b m = m
  merge_value-IsMap (some (other s)) (block es) b m = m
  merge_value-IsMap (some (seq xs)) (block es) b m = m
  merge_value-IsMap (some (block bs)) (block es) b m = merge_entries-IsMap bs es b m

pub deep_merge-AreMap :
    (base over : Option Entries) → AreMap base → AreMap over → AreMap (deep_merge base over)
unfolding deep_merge
deep_merge-AreMap none none b o = tt
deep_merge-AreMap (some base) none b o = b
deep_merge-AreMap none (some over) b o = merge_entries-IsMap end over tt o
deep_merge-AreMap (some base) (some over) b o = merge_entries-IsMap base over b o

-- ===== src/Config/Paths.antt =====
-- internal/config/config.go: `DeepMerge` read through paths of keys.
use cloudcc.Base.{
  ◌≡◌, refl, Bool, true, false, Option, none, some, List, [], ◌∷◌, Text, str_eq, if◌then◌else◌,
  arith, str_eq_iff, ◌∙◌, Option-cases, Bool-cases, subst, inl, inr,
}
use cloudcc.Config.Value.{
  Value, text, other, seq, block, Entries, end, entry, get_entry, put_entry, merge_entries,
  merge_value, deep_merge, IsMap, IsMapValue,
}

pub get-put :
    (j k : Text) (v : Value) (es : Entries)
    → get_entry j (put_entry k v es) ≡ (if str_eq j k then some v else get_entry j es)
unfolding get_entry put_entry
get-put j k v end = refl
get-put j k v (entry i w es) =
    ground (arith, get-put j k v es, str_eq_iff k i, str_eq_iff j i, str_eq_iff j k)

-- The value that a merge leaves under a key.
abbrev pub merged : Option Value → Option Value → Option Value
merged old none = old
merged old (some v) = some (merge_value old v)

-- Under each key stands the value of `base` merged with that of `over`.
pub get-merge_entries :
    (k : Text) (base over : Entries)
    → IsMap over
    → get_entry k (merge_entries base over) ≡ merged (get_entry k base) (get_entry k over)
unfolding merge_entries get_entry
get-merge_entries k base end m = refl
get-merge_entries k base (entry j v over) (fresh, inner, rest) = ground (
  arith,
  get-put k j (merge_value (get_entry j (merge_entries base over)) v) (merge_entries base over),
  get-merge_entries k base over rest,
  str_eq_iff k j,
)

-- The value at a path of keys.
abbrev pub read : List Text → Value → Option Value
read [] v = some v
read (k ∷ ks) (text s) = none
read (k ∷ ks) (other s) = none
read (k ∷ ks) (seq xs) = none
read (k ∷ ks) (block es) = elim (get_entry k es) [ none ↦ none | some v ↦ read ks v ]

abbrev pub is_block : Value → Bool
is_block (text s) = false
is_block (other s) = false
is_block (seq xs) = false
is_block (block es) = true

-- The path leaves the blocks of a value at a key that is not there, so the value says nothing of it.
abbrev pub is_silent : List Text → Value → Bool
is_silent [] v = false
is_silent (k ∷ ks) (text s) = false
is_silent (k ∷ ks) (other s) = false
is_silent (k ∷ ks) (seq xs) = false
is_silent (k ∷ ks) (block es) = elim (get_entry k es) [ none ↦ true | some v ↦ is_silent ks v ]

pub IsMap-get :
    (k : Text) (es : Entries) {v : Value} → IsMap es → get_entry k es ≡ some v → IsMapValue v
unfolding get_entry
IsMap-get k end m h = cc
IsMap-get k (entry j w es) {v} (fresh, inner, rest) h = elim (Bool-cases (str_eq k j)) [
  | inl e ↦ let same : w ≡ v = ground arith in subst IsMapValue same inner
  | inr e ↦ IsMap-get k es {v = v} rest (ground arith)
]

merge_blocks :
    (bs es : Entries) → merge_value (some (block bs)) (block es) ≡ block (merge_entries bs es)
unfolding merge_value
merge_blocks bs es = refl

-- Below a key that the stronger block has, the two values under it are merged.
read_merged :
    (k : Text) (ks : List Text) (bs es : Entries) {v : Value}
    → IsMap es
    → get_entry k es ≡ some v
    → read (k ∷ ks) (merge_value (some (block bs)) (block es))
      ≡ read ks (merge_value (get_entry k bs) v)
read_merged k ks bs es m e = rw merge_blocks (ground (arith, get-merge_entries k bs es m))

-- A key that the stronger block lacks is read from the weaker one.
read_kept :
    (k : Text) (ks : List Text) (bs es : Entries)
    → IsMap es
    → get_entry k es ≡ none
    → read (k ∷ ks) (merge_value (some (block bs)) (block es)) ≡ read (k ∷ ks) (block bs)
read_kept k ks bs es m e = rw merge_blocks (ground (arith, get-merge_entries k bs es m))

-- What `merge_value` leaves at a path where the stronger value holds something that is no block.
pub leaf_wins :
    (ks : List Text) (old : Option Value) (v leaf : Value)
    → IsMapValue v
    → is_block leaf ≡ false
    → read ks v ≡ some leaf
    → read ks (merge_value old v) ≡ some leaf
leaf_wins [] old (text s) leaf m b h = unfold merge_value in h
leaf_wins [] old (other s) leaf m b h = unfold merge_value in h
leaf_wins [] old (seq xs) leaf m b h = unfold merge_value in h
leaf_wins [] old (block es) leaf m b h = absurd (ground arith)
leaf_wins (k ∷ ks) old (text s) leaf m b h = cc
leaf_wins (k ∷ ks) old (other s) leaf m b h = cc
leaf_wins (k ∷ ks) old (seq xs) leaf m b h = cc
leaf_wins (k ∷ ks) none (block es) leaf m b h = unfold merge_value in h
leaf_wins (k ∷ ks) (some (text s)) (block es) leaf m b h = unfold merge_value in h
leaf_wins (k ∷ ks) (some (other s)) (block es) leaf m b h = unfold merge_value in h
leaf_wins (k ∷ ks) (some (seq xs)) (block es) leaf m b h = unfold merge_value in h
leaf_wins (k ∷ ks) (some (block bs)) (block es) leaf m b h = elim (Option-cases (get_entry k es)) [
  | inl e ↦ absurd (ground arith)
  | inr (v, e) ↦
      let below = leaf_wins ks (get_entry k bs) v leaf (IsMap-get k es m e) b (ground arith) in
      read_merged k ks bs es m e ∙ below
]

silent_none : (ks : List Text) (v : Value) → is_silent ks v ≡ true → read ks v ≡ none
silent_none [] v h = cc
silent_none (k ∷ ks) (text s) h = cc
silent_none (k ∷ ks) (other s) h = cc
silent_none (k ∷ ks) (seq xs) h = cc
silent_none (k ∷ ks) (block es) h = elim (Option-cases (get_entry k es)) [
  | inl e ↦ ground arith
  | inr (v, e) ↦ ground (arith, silent_none ks v)
]

merge_none : (v : Value) → merge_value none v ≡ v
unfolding merge_value
merge_none (text s) = refl
merge_none (other s) = refl
merge_none (seq xs) = refl
merge_none (block es) = refl

silent_below :
    (k : Text) (ks : List Text) (bs es : Entries) (v : Value)
    → IsMap es
    → get_entry k es ≡ some v
    → is_silent ks v ≡ true
    → ((w : Value) → read ks (merge_value (some w) v) ≡ read ks w)
    → read (k ∷ ks) (merge_value (some (block bs)) (block es)) ≡ read (k ∷ ks) (block bs)
silent_below k ks bs es v m e h below = elim (Option-cases (get_entry k bs)) [
  | inl absent ↦ ground (arith, read_merged k ks bs es m e, merge_none v, silent_none ks v)
  | inr (w, found) ↦ ground (arith, read_merged k ks bs es m e, below w)
]

pub silent_keeps :
    (ks : List Text) (old v : Value)
    → IsMapValue v
    → is_silent ks v ≡ true
    → read ks (merge_value (some old) v) ≡ read ks old
silent_keeps [] old v m h = cc
silent_keeps (k ∷ ks) old (text s) m h = cc
silent_keeps (k ∷ ks) old (other s) m h = cc
silent_keeps (k ∷ ks) old (seq xs) m h = cc
silent_keeps (k ∷ ks) (text s) (block es) m h =
    unfold merge_value in silent_none (k ∷ ks) (block es) h
silent_keeps (k ∷ ks) (other s) (block es) m h =
    unfold merge_value in silent_none (k ∷ ks) (block es) h
silent_keeps (k ∷ ks) (seq xs) (block es) m h =
    unfold merge_value in silent_none (k ∷ ks) (block es) h
silent_keeps (k ∷ ks) (block bs) (block es) m h = elim (Option-cases (get_entry k es)) [
  | inl e ↦ read_kept k ks bs es m e
  | inr (v, e) ↦
      silent_below k ks bs es v m e (ground arith)
        (λ w. silent_keeps ks w v (IsMap-get k es m e) (ground arith))
]

-- Merging two maps gives a map, if the keys of the stronger and of each map in it are different.
-- Wherever the stronger map holds a value that is no block, however deep, the result holds that
-- value; wherever it says nothing, the result holds what the weaker map holds.
pub deep_merge_paths :
    (base over : Entries)
    → IsMap over
    → (m : Entries) × (deep_merge (some base) (some over) ≡ some m)
      × ((ks : List Text) (leaf : Value)
          → is_block leaf ≡ false
          → read ks (block over) ≡ some leaf
          → read ks (block m) ≡ some leaf)
      × ((ks : List Text)
          → is_silent ks (block over) ≡ true
          → read ks (block m) ≡ read ks (block base))
unfolding deep_merge
deep_merge_paths base over m = (
  merge_entries base over,
  refl,
  λ ks leaf b h. leaf_wins ks (some (block base)) (block over) leaf m b h,
  λ ks h. silent_keeps ks (block base) (block over) m h,
)

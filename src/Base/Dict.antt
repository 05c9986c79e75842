-- ===== src/Base/Dict.antt =====
-- Go maps with string keys, as association lists without repeated keys or as functions.
use mathlib.Core.Path.{◌≡◌, refl}
use mathlib.Core.Logic.{◌≢◌}
use mathlib.Core.Bool.{true, false, ◌||◌}
use mathlib.Core.Option.{Option, none, some}
use mathlib.Core.List.{List, [], ◌∷◌}
use native.Mathlib.Omega.{arith}
use cloudcc.Base.Tests.{if◌then◌else◌}
use cloudcc.Base.Strings.{Text, str_eq, str_eq_iff, elem, IsDistinct}

-- A map with string keys: `m[k] = v` replaces the value in place or adds a pair.
module _ {ℓ} {V : Type ℓ} where
  abbrev pub dict_keys : List (Text × V) → List Text
  dict_keys [] = []
  dict_keys ((k, v) ∷ m) = k ∷ dict_keys m

  unfoldable pub put : Text → V → List (Text × V) → List (Text × V)
  put k v [] = (k, v) ∷ []
  put k v ((j, w) ∷ m) = if str_eq k j then (k, v) ∷ m else (j, w) ∷ put k v m

  unfoldable pub fetch : Text → List (Text × V) → Option V
  fetch k [] = none
  fetch k ((j, w) ∷ m) = if str_eq k j then some w else fetch k m

-- A write to a map that is read as a function.
unfoldable pub update {ℓ} : {V : Type ℓ} → Text → V → (Text → V) → Text → V
update k v f j = if str_eq j k then v else f j

pub elem-put {ℓ} :
    {V : Type ℓ} (j k : Text) (v : V) (m : List (Text × V))
    → elem j (dict_keys (put k v m)) ≡ (str_eq j k || elem j (dict_keys m))
unfolding put elem
elem-put j k v [] = refl
elem-put j k v ((i, w) ∷ m) =
    ground (arith, elem-put j k v m, str_eq_iff k i, str_eq_iff j i, str_eq_iff j k)

pub put-IsDistinct {ℓ} :
    {V : Type ℓ} (k : Text) (v : V) (m : List (Text × V))
    → IsDistinct (dict_keys m)
    → IsDistinct (dict_keys (put k v m))
unfolding put elem
put-IsDistinct k v [] d = (refl, tt)
put-IsDistinct k v ((i, w) ∷ m) d =
    ground (arith, put-IsDistinct k v m, elem-put i k v m, str_eq_iff k i, str_eq_iff i k)

-- A read after a write.
pub fetch-put {ℓ} :
    {V : Type ℓ} (j k : Text) (v : V) (m : List (Text × V))
    → fetch j (put k v m) ≡ (if str_eq j k then some v else fetch j m)
unfolding put fetch
fetch-put j k v [] = refl
fetch-put j k v ((i, w) ∷ m) =
    ground (arith, fetch-put j k v m, str_eq_iff k i, str_eq_iff j i, str_eq_iff j k)

pub fetch-none {ℓ} :
    {V : Type ℓ} (k : Text) (m : List (Text × V)) → elem k (dict_keys m) ≡ false → fetch k m ≡ none
unfolding fetch elem
fetch-none k [] h = refl
fetch-none k ((j, w) ∷ m) h = ground (arith, fetch-none k m)

pub fetch-ne-none {ℓ} :
    {V : Type ℓ} (k : Text) (m : List (Text × V)) → elem k (dict_keys m) ≡ true → fetch k m ≢ none
unfolding fetch elem
fetch-ne-none k [] h = cc
fetch-ne-none k ((j, w) ∷ m) h = ground (arith, fetch-ne-none k m)

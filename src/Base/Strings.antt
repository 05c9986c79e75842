-- ===== src/Base/Strings.antt =====
-- Go strings as lists of code points, compared the way Go compares strings: the byte order of
-- UTF-8 is the order of the code points. Sets of strings as lists with a Boolean membership test.
use Prim.Native.Char.{code}
use Prim.Native.String.{String}
use Prim.Native.Nat.{ℕ, ◌+◌}
use mathlib.Core.Path.{◌≡◌, refl}
use mathlib.Core.Bool.{Bool, true, false, ◌&&◌, ◌||◌}
use mathlib.Core.List.{List, [], ◌∷◌, ◌++◌}
use mathlib.Core.Logic.{◌↔◌, inl, inr}
use native.Mathlib.Omega.{arith}
use cloudcc.Base.Tests.{Bool-cases, ltb, leb, if◌then◌else◌, ◌==◌}

abbrev pub Text : Type 0
Text = List ℕ

-- The code points of a literal.
abbrev pub codes : String → Text
codes String.[] = []
codes (String.◌∷◌ c s) = code c ∷ codes s

-- Go's `==` on strings.
unfoldable pub str_eq : Text → Text → Bool
str_eq [] [] = true
str_eq [] (d ∷ t) = false
str_eq (c ∷ s) [] = false
str_eq (c ∷ s) (d ∷ t) = (c == d) && str_eq s t

-- Go's `<` on strings.
unfoldable pub str_lt : Text → Text → Bool
str_lt [] [] = false
str_lt [] (d ∷ t) = true
str_lt (c ∷ s) [] = false
str_lt (c ∷ s) (d ∷ t) = ltb c d || ((c == d) && str_lt s t)

pub str_eq_iff : (s t : Text) → (str_eq s t ≡ true) ↔ (s ≡ t)
unfolding str_eq
str_eq_iff [] [] = (λ _. refl, λ _. refl)
str_eq_iff [] (d ∷ t) = (λ h. cc, λ h. cc)
str_eq_iff (c ∷ s) [] = (λ h. cc, λ h. cc)
str_eq_iff (c ∷ s) (d ∷ t) =
    (λ h. ground (arith, str_eq_iff s t), λ h. ground (arith, str_eq_iff s t))

pub str_eq_refl : (s : Text) → str_eq s s ≡ true
str_eq_refl s = (str_eq_iff s s).1 refl

pub str_lt_irrefl : (s : Text) → str_lt s s ≡ false
unfolding str_lt
str_lt_irrefl [] = refl
str_lt_irrefl (c ∷ s) = ground (arith, str_lt_irrefl s)

pub str_lt_trans : (s t u : Text) → str_lt s t ≡ true → str_lt t u ≡ true → str_lt s u ≡ true
unfolding str_lt
str_lt_trans [] [] u p q = cc
str_lt_trans [] (d ∷ t) [] p q = cc
str_lt_trans [] (d ∷ t) (e ∷ u) p q = refl
str_lt_trans (c ∷ s) [] u p q = cc
str_lt_trans (c ∷ s) (d ∷ t) [] p q = cc
str_lt_trans (c ∷ s) (d ∷ t) (e ∷ u) p q = ground (arith, str_lt_trans s t u)

pub str_lt_total : (s t : Text) → str_lt s t ≡ false → str_lt t s ≡ false → s ≡ t
unfolding str_lt
str_lt_total [] [] p q = refl
str_lt_total [] (d ∷ t) p q = cc
str_lt_total (c ∷ s) [] p q = cc
str_lt_total (c ∷ s) (d ∷ t) p q = ground (arith, str_lt_total s t)

pub str_lt_asymm : (a b : Text) → str_lt a b ≡ true → str_lt b a ≡ false
str_lt_asymm a b h = elim (Bool-cases (str_lt b a)) [
  | inl lt ↦ absurd (ground (arith, str_lt_trans a b a h lt, str_lt_irrefl a))
  | inr ge ↦ ge
]

pub str_ge_trans : (a m z : Text) → str_lt m a ≡ false → str_lt z m ≡ false → str_lt z a ≡ false
str_ge_trans a m z h g = elim (Bool-cases (str_lt z a)) [
  | inr ge ↦ ge
  | inl lt ↦ elim (Bool-cases (str_lt m z)) [
    | inl d ↦ absurd (ground (arith, str_lt_trans m z a d lt, h))
    | inr d ↦ let same : m ≡ z = str_lt_total m z d g in absurd (ground (arith, same, lt, h))
  ]
]

-- `strings.HasPrefix`.
unfoldable pub has_prefix : Text → Text → Bool
has_prefix s [] = true
has_prefix [] (d ∷ p) = false
has_prefix (c ∷ s) (d ∷ p) = (c == d) && has_prefix s p

pub has_prefix-append : (p s : Text) → has_prefix (p ++ s) p ≡ true
unfolding has_prefix
has_prefix-append [] [] = refl
has_prefix-append [] (c ∷ s) = refl
has_prefix-append (c ∷ p) s = ground (arith, has_prefix-append p s)

-- Whether a string is in a list of strings.
unfoldable pub elem : Text → List Text → Bool
elem x [] = false
elem x (y ∷ ys) = str_eq x y || elem x ys

pub elem-append : (x : Text) (xs ys : List Text) → elem x (xs ++ ys) ≡ (elem x xs || elem x ys)
unfolding elem
elem-append x [] ys = refl
elem-append x (y ∷ xs) ys = ground (arith, elem-append x xs ys)

-- The strings of a list are different from one another.
abbrev pub IsDistinct : List Text → Type 0
IsDistinct [] = Unit {0}
IsDistinct (x ∷ xs) = (elem x xs ≡ false) × IsDistinct xs

pub IsDistinct-snoc :
    (xs : List Text) (k : Text) → IsDistinct xs → elem k xs ≡ false → IsDistinct (xs ++ k ∷ [])
unfolding elem
IsDistinct-snoc [] k d h = (refl, tt)
IsDistinct-snoc (x ∷ xs) k d h =
    ground (arith, IsDistinct-snoc xs k, elem-append x xs (k ∷ []), str_eq_iff x k, str_eq_iff k x)

-- Every string of the first list is in the second.
abbrev pub Within : List Text → List Text → Type 0
Within xs ys = (x : Text) → elem x xs ≡ true → elem x ys ≡ true

-- Go's `len`: the bytes of the UTF-8 encoding.
unfoldable pub byte_len : Text → ℕ
byte_len [] = 0
byte_len (c ∷ s) =
    (if ltb c 0x80 then 1 else if ltb c 0x800 then 2 else if ltb c 0x10000 then 3 else 4)
    + byte_len s

-- `strings.Contains` for a single character.
unfoldable pub has_char : ℕ → Text → Bool
has_char c [] = false
has_char c (d ∷ s) = (c == d) || has_char c s

abbrev pub is_lower : ℕ → Bool
is_lower c = leb b'a' c && leb c b'z'

abbrev pub is_upper : ℕ → Bool
is_upper c = leb b'A' c && leb c b'Z'

abbrev pub is_digit : ℕ → Bool
is_digit c = leb b'0' c && leb c b'9'

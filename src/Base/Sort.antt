-- ===== src/Base/Sort.antt =====
-- Sorted lists of strings: Go's `sort.Strings` and `sort.SearchStrings`, and finite sets.
use Prim.Native.Nat.{suc, ◌≤◌}
use mathlib.Core.Path.{◌≡◌, refl, ap, ◌∙◌}
use mathlib.Core.Bool.{true, false, ◌||◌}
use mathlib.Core.List.{List, [], ◌∷◌}
use mathlib.Core.Logic.{inl, inr}
use native.Mathlib.Omega.{arith}
use cloudcc.Base.Tests.{if◌then◌else◌, Bool-cases}
use cloudcc.Base.Lists.{length}
use cloudcc.Base.Strings.{
  Text, str_eq, str_lt, str_eq_iff, str_eq_refl, str_lt_irrefl, str_lt_trans, str_lt_total, elem,
  IsDistinct, Within,
}

-- `x` stands before every string of the list.
abbrev pub IsBelow : Text → List Text → Type 0
IsBelow x [] = Unit {0}
IsBelow x (y ∷ ys) = (str_lt x y ≡ true) × IsBelow x ys

-- Strictly ascending, so without repetition.
abbrev pub IsAscending : List Text → Type 0
IsAscending [] = Unit {0}
IsAscending (x ∷ xs) = IsBelow x xs × IsAscending xs

-- Ascending, with repetitions.
abbrev pub IsFloor : Text → List Text → Type 0
IsFloor x [] = Unit {0}
IsFloor x (y ∷ ys) = (str_lt y x ≡ false) × IsFloor x ys

abbrev pub IsSorted : List Text → Type 0
IsSorted [] = Unit {0}
IsSorted (x ∷ xs) = IsFloor x xs × IsSorted xs

pub IsBelow-trans : (x y : Text) (zs : List Text) → str_lt x y ≡ true → IsBelow y zs → IsBelow x zs
IsBelow-trans x y [] h b = tt
IsBelow-trans x y (z ∷ zs) h b = (str_lt_trans x y z h b.0, IsBelow-trans x y zs h b.1)

pub IsBelow-not-elem : (x : Text) (ys : List Text) → IsBelow x ys → elem x ys ≡ false
unfolding elem
IsBelow-not-elem x [] b = refl
IsBelow-not-elem x (y ∷ ys) b =
    ground (arith, str_eq_iff x y, str_lt_irrefl x, IsBelow-not-elem x ys b.1)

pub IsAscending-IsDistinct : (xs : List Text) → IsAscending xs → IsDistinct xs
IsAscending-IsDistinct [] h = tt
IsAscending-IsDistinct (x ∷ xs) h = (IsBelow-not-elem x xs h.0, IsAscending-IsDistinct xs h.1)

-- `sort.Strings`, as an insertion sort.
insert : Text → List Text → List Text
insert x [] = x ∷ []
insert x (y ∷ ys) = let rest = insert x ys in if str_lt y x then y ∷ rest else x ∷ y ∷ ys

unfoldable pub sort_strings : List Text → List Text
unfolding insert
sort_strings [] = []
sort_strings (x ∷ xs) = insert x (sort_strings xs)

elem-insert : (z x : Text) (ys : List Text) → elem z (insert x ys) ≡ (str_eq z x || elem z ys)
unfolding elem insert
elem-insert z x [] = refl
elem-insert z x (y ∷ ys) = ground (arith, elem-insert z x ys)

pub elem-sort_strings : (z : Text) (xs : List Text) → elem z (sort_strings xs) ≡ elem z xs
unfolding elem sort_strings
elem-sort_strings z [] = refl
elem-sort_strings z (x ∷ xs) =
    elem-insert z x (sort_strings xs) ∙ ap (λ b. str_eq z x || b) (elem-sort_strings z xs)

length-insert : (x : Text) (ys : List Text) → length (insert x ys) ≡ suc (length ys)
unfolding insert
length-insert x [] = refl
length-insert x (y ∷ ys) = ground (arith, length-insert x ys)

pub length-sort_strings : (xs : List Text) → length (sort_strings xs) ≡ length xs
unfolding sort_strings
length-sort_strings [] = refl
length-sort_strings (x ∷ xs) =
    omega (arith, length-insert x (sort_strings xs), length-sort_strings xs)

IsBelow-insert :
    (w x : Text) (ys : List Text) → str_lt w x ≡ true → IsBelow w ys → IsBelow w (insert x ys)
unfolding insert
IsBelow-insert w x [] h b = (h, tt)
IsBelow-insert w x (y ∷ ys) h b = elim (Bool-cases (str_lt y x)) [
  | inl lt ↦ rw lt (b.0, IsBelow-insert w x ys h b.1)
  | inr ge ↦ rw ge (h, b)
]

IsAscending-insert :
    (x : Text) (ys : List Text) → elem x ys ≡ false → IsAscending ys → IsAscending (insert x ys)
unfolding insert elem
IsAscending-insert x [] n a = (tt, tt)
IsAscending-insert x (y ∷ ys) n a = elim (Bool-cases (str_lt y x)) [
  | inl lt ↦ rw lt (IsBelow-insert y x ys lt a.0, IsAscending-insert x ys (ground arith) a.1)
  | inr ge ↦ elim (Bool-cases (str_lt x y)) [
    | inl below ↦ rw ge ((below, IsBelow-trans x y ys below a.0), a)
    | inr above ↦ absurd (ground (arith, str_lt_total x y above ge, str_eq_iff x y))
  ]
]

-- Sorting different strings gives a strictly ascending list.
pub sort_strings-IsAscending : (xs : List Text) → IsDistinct xs → IsAscending (sort_strings xs)
unfolding sort_strings
sort_strings-IsAscending [] d = tt
sort_strings-IsAscending (x ∷ xs) d =
    IsAscending-insert x (sort_strings xs) (elem-sort_strings x xs ∙ d.0)
      (sort_strings-IsAscending xs d.1)

-- The list with the first occurrence of a string taken out.
without : Text → List Text → List Text
without x [] = []
without x (y ∷ ys) = let rest = without x ys in if str_eq x y then ys else y ∷ rest

length-without :
    (x : Text) (ys : List Text) → elem x ys ≡ true → suc (length (without x ys)) ≡ length ys
unfolding without elem
length-without x [] h = cc
length-without x (y ∷ ys) h = ground (arith, length-without x ys)

elem-without :
    (z x : Text) (ys : List Text)
    → elem z ys ≡ true
    → str_eq z x ≡ false
    → elem z (without x ys) ≡ true
unfolding without elem
elem-without z x [] h n = cc
elem-without z x (y ∷ ys) h n =
    ground (arith, elem-without z x ys, str_eq_iff x y, str_eq_iff z y, str_eq_iff z x)

-- The pigeonhole principle.
pub length-le_of_Within : (xs ys : List Text) → IsDistinct xs → Within xs ys → length xs ≤ length ys
unfolding elem
length-le_of_Within [] ys d w = omega arith
length-le_of_Within (x ∷ xs) ys d w =
    let found = w x (ground (arith, str_eq_refl x)) in
    omega (
      arith,
      length-without x ys found,
      length-le_of_Within xs (without x ys) d.1
          (λ z h. elem-without z x ys (w z (ground arith)) (ground (arith, str_eq_iff z x))),
    )

-- A set within another of the same size is all of it.
pub Within-full :
    (xs ys : List Text) → IsDistinct xs → Within xs ys → length xs ≡ length ys → Within ys xs
unfolding elem
Within-full xs ys d w e z h = elim (Bool-cases (elem z xs)) [
  | inl found ↦ found
  | inr absent ↦ absurd (omega (arith, length-le_of_Within (z ∷ xs) ys (absent, d) more))
]
  where
    more : Within (z ∷ xs) ys
    more u hu = ground (arith, w u, str_eq_iff u z)

-- ===== src/Graph/Adjacency.antt =====
-- internal/graph/graph.go: what `insertSorted` does to an adjacency list.
use cloudcc.Base.{
  ◌≡◌, refl, true, false, ◌||◌, List, [], ◌∷◌, arith, Text, str_eq, str_lt, elem, if◌then◌else◌,
  Bool-cases, str_eq_iff, str_lt_irrefl, str_lt_total, IsBelow, IsAscending, IsBelow-trans, inl,
  inr,
}
use cloudcc.Graph.Defs.{insert_sorted}

-- The recursive reading of the search, the test and the copy.
insert_sorted-cons :
    (x : Text) (xs : List Text) (v : Text)
    → insert_sorted (x ∷ xs) v
      ≡ (if str_lt x v then x ∷ insert_sorted xs v else if str_eq x v then x ∷ xs else v ∷ x ∷ xs)
unfolding insert_sorted
insert_sorted-cons x xs v = ground arith

-- The set of strings grows by the inserted one, whatever the order of the list.
pub elem-insert_sorted :
    (z v : Text) (xs : List Text) → elem z (insert_sorted xs v) ≡ (str_eq z v || elem z xs)
unfolding elem
elem-insert_sorted z v [] = unfold insert_sorted in refl
elem-insert_sorted z v (x ∷ xs) =
    rw insert_sorted-cons
      (ground (arith, elem-insert_sorted z v xs, str_eq_iff x v, str_eq_iff z x, str_eq_iff z v))

IsBelow-insert_sorted :
    (w v : Text) (xs : List Text)
    → str_lt w v ≡ true
    → IsBelow w xs
    → IsBelow w (insert_sorted xs v)
IsBelow-insert_sorted w v [] h b = unfold insert_sorted in (h, tt)
IsBelow-insert_sorted w v (x ∷ xs) h b =
    rw insert_sorted-cons (ground (arith, IsBelow-insert_sorted w v xs))

-- `insertSorted` keeps a list strictly ascending, so an edge is never recorded twice.
pub insert_sorted-IsAscending :
    (xs : List Text) (v : Text) → IsAscending xs → IsAscending (insert_sorted xs v)
insert_sorted-IsAscending [] v a = unfold insert_sorted in (tt, tt)
insert_sorted-IsAscending (x ∷ xs) v a = rw insert_sorted-cons (elim (Bool-cases (str_lt x v)) [
  | inl lt ↦ rw lt (IsBelow-insert_sorted x v xs lt a.0, insert_sorted-IsAscending xs v a.1)
  | inr ge ↦ elim (Bool-cases (str_lt v x)) [
    | inl below ↦
        let other : str_eq x v ≡ false = ground (arith, str_eq_iff x v, str_lt_irrefl x) in
        rw (ge, other) ((below, IsBelow-trans v x xs below a.0), a)
    | inr above ↦
        let same : str_eq x v ≡ true = (str_eq_iff x v).1 (str_lt_total x v ge above) in
        rw (ge, same) a
  ]
])

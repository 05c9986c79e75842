-- ===== src/Graph/Final.antt =====
-- internal/graph/graph.go: the first and the last state of the outer loop of `TopoSort`.
use cloudcc.Base.{
  ℕ, zero, suc, ◌+◌, ◌≤◌, ◌≡◌, refl, Bool, true, false, ◌&&◌, List, [], ◌∷◌, arith, Text, elem,
  Bool-cases, str_eq_iff, str_eq_refl, IsAscending, IsDistinct, inl, inr, length, Within, keep_if,
  dict_keys, List-cases, ap, some, length-append, elem-sort_strings, length-le_of_Within,
  IsAscending-IsDistinct, sort_strings, sort_strings-IsAscending, ◌∙◌, ◌⊎◌,
}
use cloudcc.Base.Int.{pos, is_zero, is_positive}
use cloudcc.Graph.Defs.{Directed, Kahn, start, round, loop, keys, finish, topo_sort}
use cloudcc.Graph.Shape.{IsShaped}
use cloudcc.Graph.Release.{missing-nil, missing_pos}
use cloudcc.Graph.Kahn.{IsRunning, node_keys, preds, round-IsRunning}

elem-keep_if :
    (x : Text) (p : Text → Bool) (xs : List Text) → elem x (keep_if p xs) ≡ (elem x xs && p x)
unfolding elem
elem-keep_if x p [] = refl
elem-keep_if x p (y ∷ ys) = ground (arith, elem-keep_if x p ys, str_eq_iff x y)

keep_if-IsDistinct : (p : Text → Bool) (xs : List Text) → IsDistinct xs → IsDistinct (keep_if p xs)
unfolding elem
keep_if-IsDistinct p [] d = tt
keep_if-IsDistinct p (x ∷ xs) d = ground (arith, keep_if-IsDistinct p xs, elem-keep_if x p xs)

pub length-dict_keys {ℓ} : {V : Type ℓ} (m : List (Text × V)) → length (dict_keys m) ≡ length m
length-dict_keys [] = refl
length-dict_keys ((k, v) ∷ m) = ap suc (length-dict_keys m)

-- A string of the first list that the second lacks, if there is one.
pub Within-cases :
    (ys xs : List Text) → Within ys xs ⊎ ((y : Text) × (elem y ys ≡ true) × (elem y xs ≡ false))
unfolding elem
Within-cases [] xs = inl λ y h. cc
Within-cases (y ∷ ys) xs = elim (Bool-cases (elem y xs)) [
  | inr absent ↦ inr (y, ground (arith, str_eq_refl y), absent)
  | inl found ↦ elim (Within-cases ys xs) [
    | inl all ↦ inl λ z h. ground (arith, all z, str_eq_iff z y)
    | inr (z, inside, outside) ↦ inr (z, ground arith, outside)
  ]
]

module _ {ℓ} {N : Type ℓ} (g : Directed N) (shaped : IsShaped g) where
  abbrev free : Text → Bool
  free k = is_zero (pos (length (preds g k)))

  elem-start : (k : Text) → elem k (start g).ready ≡ (elem k (node_keys g) && free k)
  unfolding start keys
  elem-start k =
      elem-sort_strings k (keep_if free (sort_strings (node_keys g)))
      ∙ elem-keep_if k free (sort_strings (node_keys g))
      ∙ ap (λ b. b && free k) (elem-sort_strings k (node_keys g))

  start-IsAscending : IsAscending (start g).ready
  unfolding start keys
  start-IsAscending = sort_strings-IsAscending _ (
      keep_if-IsDistinct free _
        (IsAscending-IsDistinct _ (sort_strings-IsAscending _ shaped.distinct)))

  start_out : (start g).out ≡ []
  unfolding start
  start_out = refl

  start_indeg : (k : Text) → (start g).indeg k ≡ pos (length (preds g k))
  unfolding start
  start_indeg k = refl

  start-IsRunning : IsRunning g (start g)
  unfolding elem
  start-IsRunning = record {
    counted = λ k h. ground (arith, start_out, start_indeg k, missing-nil (preds g k));
    placed_known = λ k h. ground (arith, start_out);
    ready_known = λ k h. ground (arith, elem-start k);
    placed_distinct = rw start_out tt;
    ready_ascending = start-IsAscending;
    apart = λ k h. rw start_out;
    ready_free = λ k h. ground (arith, start_out, missing-nil (preds g k), elem-start k);
    placed_free = λ k h. ground (arith, start_out);
    waiting = λ k h o r. ground (arith, start_out, missing-nil (preds g k), elem-start k);
    ordered = rw start_out tt;
  }

  -- A queued node is not placed yet, so there is room for it.
  room :
      (s : Kahn) (k : Text) (rest : List Text)
      → s.ready ≡ k ∷ rest
      → IsRunning g s
      → suc (length s.out) ≤ length (node_keys g)
  unfolding elem
  room s k rest e inv =
      let queued : elem k s.ready ≡ true = ground (arith, e, str_eq_refl k) in
      length-le_of_Within (k ∷ s.out) (node_keys g) (inv.apart k queued, inv.placed_distinct)
        λ x h. ground (arith, inv.placed_known x, inv.ready_known k, str_eq_iff x k)

  abbrev Ends : ℕ → Kahn → Type 0
  Ends fuel s = (t : Kahn) × (loop g fuel s ≡ some t) × IsRunning g t × (t.ready ≡ [])

  length-round :
      (s : Kahn) (k : Text) (rest : List Text) → length (round g s k rest).out ≡ length s.out + 1
  unfolding round
  length-round s k rest = length-append s.out (k ∷ [])

  -- The loop ends by its test when the fuel covers the nodes that are not placed.
  loop-Ends :
      (fuel : ℕ) (s : Kahn)
      → IsRunning g s
      → length (node_keys g) ≤ length s.out + fuel
      → Ends fuel s
  unfolding loop
  loop-Ends zero s inv h = elim (List-cases s.ready) [
    | inl e ↦ (s, simp (e, loop), inv, e)
    | inr (k, rest, e) ↦ absurd (omega (arith, room s k rest e inv))
  ]
  loop-Ends (suc fuel) s inv h = elim (List-cases s.ready) [
    | inl e ↦ (s, simp (e, loop), inv, e)
    | inr (k, rest, e) ↦
        let (t, ends, inv', empty) =
          loop-Ends fuel (round g s k rest) (round-IsRunning g shaped s k rest e inv)
            (omega (arith, length-round s k rest)) in
        (t, rw (e, loop) ends, inv', empty)
  ]

  pub topo_sort_final : (t : Kahn) × (topo_sort g ≡ finish g t) × IsRunning g t × (t.ready ≡ [])
  unfolding topo_sort
  topo_sort_final =
      let (t, ends, inv, empty) =
        loop-Ends (length g.nodes) (start g) start-IsRunning
          (omega (arith, length-dict_keys g.nodes)) in
      (t, ground arith, inv, empty)

  module _ (t : Kahn) (inv : IsRunning g t) (empty : t.ready ≡ []) where
    unready : (k : Text) → elem k t.ready ≡ false
    unfolding elem
    unready k = rw empty

    -- An unplaced node has a predecessor that is not placed either.
    pub held_back :
        (k : Text)
        → elem k (node_keys g) ≡ true
        → elem k t.out ≡ false
        → (p : Text) × (elem p (preds g k) ≡ true)
          × (elem p (node_keys g) ≡ true)
          × (elem p t.out ≡ false)
    held_back k known outside =
        let (p, before, absent) =
          missing_pos t.out (preds g k) (inv.waiting k known outside (unready k)) in
        (p, before, (shaped.inside p k (shaped.mirrored p k ∙ before)).0, absent)

    abbrev pub stuck : List Text
    stuck = keep_if (λ k. is_positive (t.indeg k)) (keys g)

    pub elem-stuck :
        (k : Text) → elem k (node_keys g) ≡ true → elem k t.out ≡ false → elem k stuck ≡ true
    unfolding keys
    elem-stuck k known outside =
        let positive : is_positive (t.indeg k) ≡ true =
          ground (arith, inv.counted k known, inv.waiting k known outside (unready k)) in
        elem-keep_if k (λ j. is_positive (t.indeg j)) (keys g)
        ∙ rw (positive, elem-sort_strings, known)

    pub stuck_only :
        (k : Text) → elem k stuck ≡ true → (elem k (node_keys g) ≡ true) × (elem k t.out ≡ false)
    unfolding keys
    stuck_only k h = ground (
      arith,
      elem-keep_if k (λ j. is_positive (t.indeg j)) (keys g),
      inv.counted k,
      elem-sort_strings k (node_keys g),
      inv.placed_free k,
    )

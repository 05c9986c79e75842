-- ===== src/Graph/Release.antt =====
-- internal/graph/graph.go: the inner loop of `TopoSort`, and the count of unplaced predecessors
-- that its counters stand for.
use cloudcc.Base.{
  ℕ, suc, ◌<◌, ◌≤◌, ◌≡◌, refl, Bool, true, false, ◌||◌, ◌&&◌, List, [], ◌∷◌, ◌++◌, arith, Text,
  elem, update, if◌then◌else◌, Bool-cases, str_eq_iff, str_eq_refl, IsAscending, IsDistinct, inl,
  inr, length, elem-append, Within,
}
use cloudcc.Base.Int.{ℤ, decrement, is_zero}
use cloudcc.Graph.Defs.{insert_sorted, release}
use cloudcc.Graph.Adjacency.{elem-insert_sorted, insert_sorted-IsAscending}

-- How many strings of `ps` are not in `out`.
abbrev pub missing : List Text → List Text → ℕ
missing out [] = 0
missing out (p ∷ ps) = let m = missing out ps in if elem p out then m else suc m

pub missing-nil : (ps : List Text) → missing [] ps ≡ length ps
unfolding elem
missing-nil [] = refl
missing-nil (p ∷ ps) = ground (arith, missing-nil ps)

pub missing_absent :
    (out ps : List Text) (k : Text)
    → elem k ps ≡ false
    → missing (out ++ k ∷ []) ps ≡ missing out ps
unfolding elem
missing_absent out [] k h = refl
missing_absent out (p ∷ ps) k h =
    ground
      (arith, missing_absent out ps k, elem-append p out (k ∷ []), str_eq_iff k p, str_eq_iff p k)

pub missing_present :
    (out ps : List Text) (k : Text)
    → IsDistinct ps
    → elem k out ≡ false
    → elem k ps ≡ true
    → suc (missing (out ++ k ∷ []) ps) ≡ missing out ps
unfolding elem
missing_present out [] k d n h = cc
missing_present out (p ∷ ps) k d n h = ground (
  arith,
  missing_present out ps k,
  missing_absent out ps k,
  elem-append p out (k ∷ []),
  str_eq_iff k p,
  str_eq_iff p k,
)

pub missing-le : (out ps : List Text) (k : Text) → missing (out ++ k ∷ []) ps ≤ missing out ps
unfolding elem
missing-le out [] k = omega arith
missing-le out (p ∷ ps) k = ground (arith, missing-le out ps k, elem-append p out (k ∷ []))

pub missing_zero : (out ps : List Text) → missing out ps ≡ 0 → Within ps out
unfolding elem
missing_zero out [] h p e = cc
missing_zero out (q ∷ ps) h p e =
    ground (arith, missing_zero out ps (ground arith) p, str_eq_iff p q)

pub missing_pos :
    (out ps : List Text)
    → 0 < missing out ps
    → (p : Text) × (elem p ps ≡ true) × (elem p out ≡ false)
unfolding elem
missing_pos out [] h = absurd (omega arith)
missing_pos out (q ∷ ps) h = elim (Bool-cases (elem q out)) [
  | inl found ↦
      let (p, inside, outside) = missing_pos out ps (ground arith) in (p, ground arith, outside)
  | inr absent ↦ (q, ground (arith, str_eq_refl q), absent)
]

-- The counters after the inner loop.
pub release_indeg :
    (ss : List Text) (indeg : Text → ℤ) (ready : List Text) (j : Text)
    → IsDistinct ss
    → (release ss indeg ready).0 j ≡ (if elem j ss then decrement (indeg j) else indeg j)
unfolding release elem update
release_indeg [] indeg ready j d = refl
release_indeg (s ∷ ss) indeg ready j d =
    let count = decrement (indeg s) in
    let queue = if is_zero count then insert_sorted ready s else ready in
    ground (arith, release_indeg ss (update s count indeg) queue j d.1, str_eq_iff j s)

pub release_ready :
    (ss : List Text) (indeg : Text → ℤ) (ready : List Text) (j : Text)
    → IsDistinct ss
    → elem j (release ss indeg ready).1
      ≡ (elem j ready || (elem j ss && is_zero (decrement (indeg j))))
unfolding release elem update
release_ready [] indeg ready j d = ground arith
release_ready (s ∷ ss) indeg ready j d =
    let count = decrement (indeg s) in
    let queue = if is_zero count then insert_sorted ready s else ready in
    ground (
      arith,
      release_ready ss (update s count indeg) queue j d.1,
      elem-insert_sorted j s ready,
      str_eq_iff j s,
    )

queue-IsAscending :
    (b : Bool) (ready : List Text) (s : Text)
    → IsAscending ready
    → IsAscending (if b then insert_sorted ready s else ready)
queue-IsAscending true ready s a = insert_sorted-IsAscending ready s a
queue-IsAscending false ready s a = a

pub release-IsAscending :
    (ss : List Text) (indeg : Text → ℤ) (ready : List Text)
    → IsAscending ready
    → IsAscending (release ss indeg ready).1
unfolding release
release-IsAscending [] indeg ready a = a
release-IsAscending (s ∷ ss) indeg ready a =
    let count = decrement (indeg s) in
    release-IsAscending ss (update s count indeg)
      (if is_zero count then insert_sorted ready s else ready)
      (queue-IsAscending (is_zero count) ready s a)

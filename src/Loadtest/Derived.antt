-- ===== src/Loadtest/Derived.antt =====
-- internal/loadtest/plan.go: what a derived plan guarantees.
use cloudcc.Base.{
  ℕ, ◌≤◌, ◌≡◌, ◌≢◌, refl, sym, ap, ◌∙◌, subst, true, false, ◌||◌, none, some, List, [], ◌∷◌, ◌++◌,
  Text, codes, str_eq, str_eq_iff, str_lt, elem, elem-append, IsDistinct, IsDistinct-snoc, map, All,
  arith, Bool-cases, Option-cases, inl, inr, has_prefix, ◌⊎◌,
}
use cloudcc.Loadtest.Reach.{Edge, kind_unit, key_string, edge_uses, edge_calls, edge_subscribes}
use cloudcc.Loadtest.Checklist.{
  Evidence, edge_label, evidence_of, add_evidence, collect, place_evidence, sort_evidence,
}
use cloudcc.Loadtest.Plan.{phase_rank, Step, is_before, place_step, sort_steps}

abbrev pub step_keys : List Step → List Text
step_keys ss = map (λ s. s.verb ++ codes " " ++ s.path) ss

-- The phases of a session do not go back.
abbrev pub IsPhased : List Step → Type 0
IsPhased [] = Unit {0}
IsPhased (s ∷ ss) = All (λ t. phase_rank s.phase ≤ phase_rank t.phase) ss × IsPhased ss

elem-place_step :
    (k : Text) (s : Step) (ss : List Step)
    → elem k (step_keys (place_step s ss)) ≡ elem k (step_keys (s ∷ ss))
unfolding place_step elem
elem-place_step k s [] = refl
elem-place_step k s (t ∷ ts) = ground (arith, elem-place_step k s ts)

pub elem-sort_steps :
    (k : Text) (ss : List Step) → elem k (step_keys (sort_steps ss)) ≡ elem k (step_keys ss)
unfolding sort_steps elem
elem-sort_steps k [] = refl
elem-sort_steps k (s ∷ ss) =
    ground (arith, elem-place_step k s (sort_steps ss), elem-sort_steps k ss)

All-place_step :
    (n : ℕ) (s : Step) (ss : List Step)
    → n ≤ phase_rank s.phase
    → All (λ t. n ≤ phase_rank t.phase) ss
    → All (λ t. n ≤ phase_rank t.phase) (place_step s ss)
unfolding place_step
All-place_step n s [] h a = (h, tt)
All-place_step n s (t ∷ ts) h a = elim (Bool-cases (is_before t s)) [
  | inl b ↦ rw b (a.0, All-place_step n s ts h a.1)
  | inr b ↦ rw b (h, a)
]

All-below :
    (m n : ℕ) (ss : List Step)
    → m ≤ n
    → All (λ t. n ≤ phase_rank t.phase) ss
    → All (λ t. m ≤ phase_rank t.phase) ss
All-below m n [] h a = tt
All-below m n (s ∷ ss) h a = (omega (arith, a.0), All-below m n ss h a.1)

is_before-rank : (t s : Step) → is_before t s ≡ true → phase_rank t.phase ≤ phase_rank s.phase
unfolding is_before
is_before-rank t s h = ground arith

rank-is_before : (t s : Step) → is_before t s ≡ false → phase_rank s.phase ≤ phase_rank t.phase
unfolding is_before
rank-is_before t s h = ground arith

place_step-IsPhased : (s : Step) (ss : List Step) → IsPhased ss → IsPhased (place_step s ss)
unfolding place_step
place_step-IsPhased s [] h = (tt, tt)
place_step-IsPhased s (t ∷ ts) h = elim (Bool-cases (is_before t s)) [
  | inl b ↦ rw b (
    All-place_step (phase_rank t.phase) s ts (is_before-rank t s b) h.0,
    place_step-IsPhased s ts h.1,
  )
  | inr b ↦
      let le = rank-is_before t s b in
      rw b ((le, All-below (phase_rank s.phase) (phase_rank t.phase) ts le h.0), h)
]

pub sort_steps-IsPhased : (ss : List Step) → IsPhased (sort_steps ss)
unfolding sort_steps
sort_steps-IsPhased [] = tt
sort_steps-IsPhased (s ∷ ss) = place_step-IsPhased s (sort_steps ss) (sort_steps-IsPhased ss)

abbrev pub labels : List Evidence → List Text
labels es = map (λ e. e.edge) es

labels-append :
    (out : List Evidence) (e : Evidence) → labels (out ++ e ∷ []) ≡ labels out ++ e.edge ∷ []
labels-append [] e = refl
labels-append (o ∷ out) e = ap (λ t. o.edge ∷ t) (labels-append out e)

elem-add_evidence :
    (k : Text) (e : Evidence) (out : List Evidence)
    → elem k (labels (add_evidence e out)) ≡ (elem k (labels out) || str_eq k e.edge)
unfolding add_evidence elem
elem-add_evidence k e out = elim (Bool-cases (elem e.edge (labels out))) [
  | inl old ↦ ground (arith, str_eq_iff k e.edge, old)
  | inr new ↦
      rw new (
        ap (elem k) (labels-append out e)
        ∙ ground (arith, elem-append k (labels out) (e.edge ∷ [])))
]

add_evidence-IsDistinct :
    (e : Evidence) (out : List Evidence)
    → IsDistinct (labels out)
    → IsDistinct (labels (add_evidence e out))
unfolding add_evidence
add_evidence-IsDistinct e out h = elim (Bool-cases (elem e.edge (labels out))) [
  | inl old ↦ rw old h
  | inr new ↦
      rw new
        (subst IsDistinct (sym (labels-append out e)) (IsDistinct-snoc (labels out) e.edge h new))
]

-- What the loop does with an edge, for a checklist with these labels.
abbrev pub IsTaken : List Text → List Text → Edge → Type 0
IsTaken found names e =
    (v : Evidence)
    → str_eq e.from.kind kind_unit ≡ true
    → evidence_of found e ≡ some v
    → elem v.edge names ≡ true

-- An edge of a unit that leaves evidence: a call, a subscription, or the use of a store.
abbrev pub IsTraced : Edge → Type 0
IsTraced e =
    (e.from.kind ≡ codes "execution_unit")
    × ((e.kind ≡ codes "calls")
        ⊎ (e.kind ≡ codes "subscribes")
        ⊎ ((e.kind ≡ codes "uses") × (has_prefix e.to.kind (codes "persist_") ≡ true)))

-- Its label, "from -kind-> to", is in the list.
abbrev pub IsListed : List Text → Edge → Type 0
IsListed names e =
    IsTraced e
    → elem (key_string e.from ++ codes " -" ++ e.kind ++ codes "-> " ++ key_string e.to) names
      ≡ true

silent-IsTraced : (found : List Text) (e : Edge) → IsTraced e → evidence_of found e ≢ none
unfolding evidence_of
silent-IsTraced found e (u, inl calls) h = ground (arith, h, str_eq_iff e.kind edge_calls, calls)
silent-IsTraced found e (u, inr (inl subscribes)) h =
    ground (arith, h, str_eq_iff e.kind edge_subscribes, subscribes)
silent-IsTraced found e (u, inr (inr (uses, prefix))) h =
    ground (arith, h, str_eq_iff e.kind edge_uses, uses, prefix)

evidence_of-label :
    (found : List Text) (e : Edge) (v : Evidence)
    → evidence_of found e ≡ some v
    → v.edge ≡ edge_label e
unfolding evidence_of
evidence_of-label found e v h = ground (arith, h)

pub taken-IsListed : (found names : List Text) (e : Edge) → IsTaken found names e → IsListed names e
unfolding edge_label
taken-IsListed found names e t (u, h) =
    let unit : str_eq e.from.kind kind_unit ≡ true =
      ground (arith, u, str_eq_iff e.from.kind kind_unit) in
    elim (Option-cases (evidence_of found e)) [
      | inl silent ↦ absurd (silent-IsTraced found e (u, h) silent)
      | inr (v, there) ↦
          subst (λ l. elem l names ≡ true) (evidence_of-label found e v there) (t v unit there)
    ]

-- What the loop over the edges keeps.
pub record IsCollected (found : List Text) (es : List Edge) (out res : List Evidence) : Type 0 where
  pub distinct : IsDistinct (labels res)
  pub kept : (k : Text) → elem k (labels out) ≡ true → elem k (labels res) ≡ true
  pub listed : All (IsTaken found (labels res)) es

collect-skip :
    (found : List Text) (e : Edge) (es : List Edge) (out res : List Evidence)
    → ((v : Evidence) → str_eq e.from.kind kind_unit ≡ true → evidence_of found e ≢ some v)
    → IsCollected found es out res
    → IsCollected found (e ∷ es) out res
collect-skip found e es out res n c = record {
  distinct = c.distinct;
  kept = c.kept;
  listed = (λ v u h. absurd (n v u h), c.listed);
}

collect-take :
    (found : List Text) (e : Edge) (es : List Edge) (v : Evidence) (out res : List Evidence)
    → evidence_of found e ≡ some v
    → IsCollected found es (add_evidence v out) res
    → IsCollected found (e ∷ es) out res
collect-take found e es v out res h c = record {
  distinct = c.distinct;
  kept = λ k i. c.kept k (ground (arith, elem-add_evidence k v out, i));
  listed = (
    λ w u i.
        let same : v ≡ w = ground (arith, h, i) in
        subst (λ x. elem x.edge (labels res) ≡ true) same
          (c.kept v.edge
            (ground (arith, elem-add_evidence v.edge v out, str_eq_iff v.edge v.edge))),
    c.listed,
  );
}

collect-other :
    (found : List Text) (e : Edge) (es : List Edge) (out : List Evidence)
    → str_eq e.from.kind kind_unit ≡ false
    → collect found (e ∷ es) out ≡ collect found es out
unfolding collect
collect-other found e es out h = ground (arith, h)

collect-silent :
    (found : List Text) (e : Edge) (es : List Edge) (out : List Evidence)
    → evidence_of found e ≡ none
    → collect found (e ∷ es) out ≡ collect found es out
unfolding collect
collect-silent found e es out h = elim (Bool-cases (str_eq e.from.kind kind_unit)) [
  | inl u ↦ ground (arith, h, u)
  | inr u ↦ ground (arith, h, u)
]

collect-add :
    (found : List Text) (e : Edge) (es : List Edge) (v : Evidence) (out : List Evidence)
    → str_eq e.from.kind kind_unit ≡ true
    → evidence_of found e ≡ some v
    → collect found (e ∷ es) out ≡ collect found es (add_evidence v out)
unfolding collect
collect-add found e es v out u h = ground (arith, h, u)

pub collect-IsCollected :
    (found : List Text) (es : List Edge) (out : List Evidence)
    → IsDistinct (labels out)
    → IsCollected found es out (collect found es out)
unfolding collect
collect-IsCollected found [] out h = record { distinct = h; kept = λ k i. i; listed = tt }
collect-IsCollected found (e ∷ es) out h = elim (Bool-cases (str_eq e.from.kind kind_unit)) [
  | inr other ↦ subst (IsCollected found (e ∷ es) out) (sym (collect-other found e es out other)) (
      collect-skip found e es out _ (λ v u. absurd (ground arith))
        (collect-IsCollected found es out h))
  | inl unit ↦ elim (Option-cases (evidence_of found e)) [
    | inl silent ↦
        subst (IsCollected found (e ∷ es) out) (sym (collect-silent found e es out silent)) (
          collect-skip found e es out _ (λ v u i. absurd (ground arith))
            (collect-IsCollected found es out h))
    | inr (v, there) ↦
        subst (IsCollected found (e ∷ es) out) (sym (collect-add found e es v out unit there)) (
          collect-take found e es v out _ there
            (collect-IsCollected found es (add_evidence v out) (add_evidence-IsDistinct v out h)))
  ]
]

elem-place_evidence :
    (k : Text) (e : Evidence) (fs : List Evidence)
    → elem k (labels (place_evidence e fs)) ≡ (str_eq k e.edge || elem k (labels fs))
unfolding place_evidence elem
elem-place_evidence k e [] = refl
elem-place_evidence k e (f ∷ fs) = ground (arith, elem-place_evidence k e fs)

pub elem-sort_evidence :
    (k : Text) (es : List Evidence) → elem k (labels (sort_evidence es)) ≡ elem k (labels es)
unfolding sort_evidence elem
elem-sort_evidence k [] = refl
elem-sort_evidence k (e ∷ es) =
    ground (arith, elem-place_evidence k e (sort_evidence es), elem-sort_evidence k es)

place_evidence-IsDistinct :
    (e : Evidence) (fs : List Evidence)
    → elem e.edge (labels fs) ≡ false
    → IsDistinct (labels fs)
    → IsDistinct (labels (place_evidence e fs))
unfolding place_evidence elem
place_evidence-IsDistinct e [] n h = (refl, tt)
place_evidence-IsDistinct e (f ∷ fs) n h = elim (Bool-cases (str_lt f.edge e.edge)) [
  | inl lt ↦ rw lt (
    ground (
      arith,
      elem-place_evidence f.edge e fs,
      h.0,
      n,
      str_eq_iff f.edge e.edge,
      str_eq_iff e.edge f.edge,
    ),
    place_evidence-IsDistinct e fs (ground arith) h.1,
  )
  | inr ge ↦ rw ge (n, h)
]

pub sort_evidence-IsDistinct :
    (es : List Evidence) → IsDistinct (labels es) → IsDistinct (labels (sort_evidence es))
unfolding sort_evidence elem
sort_evidence-IsDistinct [] h = tt
sort_evidence-IsDistinct (e ∷ es) h =
    place_evidence-IsDistinct e (sort_evidence es) (elem-sort_evidence e.edge es ∙ h.0)
      (sort_evidence-IsDistinct es h.1)

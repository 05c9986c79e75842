-- ===== src/Args/Gathered.antt =====
-- internal/provider/aws/lambdaargs.go: the answers for the entries of a block, sorted and read up to the first error.
use cloudcc.Base.{◌≡◌, ◌⊎◌, refl, subst, List, [], ◌∷◌, str_lt, arith, All, Bool-cases, inl, inr}
use cloudcc.Args.Schema.{Setting, Settings, put_setting}
use cloudcc.Args.Translate.{ArgError, Answer, good, bad, Item, place_item, sort_items, gather}

abbrev pub IsGood : Item → Type 0
IsGood i = (v : Setting) × (i.result ≡ good v)

pub Answer-cases :
    {A : Type 0} (a : Answer A) → ((e : ArgError) × (a ≡ bad e)) ⊎ ((v : A) × (a ≡ good v))
Answer-cases (bad e) = inl (e, refl)
Answer-cases (good v) = inr (v, refl)

pub All-place_item :
    (P : Item → Type 0) (i : Item) (js : List Item) → P i → All P js → All P (place_item i js)
unfolding place_item
All-place_item P i [] p ps = (p, tt)
All-place_item P i (j ∷ js) p ps = elim (Bool-cases (str_lt j.name i.name)) [
  | inl lt ↦ rw lt (ps.0, All-place_item P i js p ps.1)
  | inr ge ↦ rw ge (p, ps)
]

pub All-sort_items : (P : Item → Type 0) (is : List Item) → All P is → All P (sort_items is)
unfolding sort_items
All-sort_items P [] ps = tt
All-sort_items P (i ∷ is) ps = All-place_item P i (sort_items is) ps.0 (All-sort_items P is ps.1)

pub place_item-All :
    (P : Item → Type 0) (i : Item) (js : List Item) → All P (place_item i js) → P i × All P js
unfolding place_item
place_item-All P i [] ps = (ps.0, tt)
place_item-All P i (j ∷ js) ps = elim (Bool-cases (str_lt j.name i.name)) [
  | inl lt ↦
      let same : place_item i (j ∷ js) ≡ j ∷ place_item i js = ground (arith, lt) in
      let qs : All P (j ∷ place_item i js) = subst (All P) same ps in
      let rest = place_item-All P i js qs.1 in (rest.0, (qs.0, rest.1))
  | inr ge ↦
      let same : place_item i (j ∷ js) ≡ i ∷ j ∷ js = ground (arith, ge) in
      let qs : All P (i ∷ j ∷ js) = subst (All P) same ps in qs
]

pub sort_items-All : (P : Item → Type 0) (is : List Item) → All P (sort_items is) → All P is
unfolding sort_items
sort_items-All P [] ps = tt
sort_items-All P (i ∷ is) ps =
    let both = place_item-All P i (sort_items is) ps in (both.0, sort_items-All P is both.1)

pub gather-IsGood : (is : List Item) (out m : Settings) → gather out is ≡ good m → All IsGood is
unfolding gather
gather-IsGood [] out m h = tt
gather-IsGood (i ∷ is) out m h = elim (Answer-cases i.result) [
  | inl (e, wrong) ↦ absurd (ground (arith, wrong, h))
  | inr (v, fine) ↦
      ((v, fine), gather-IsGood is (put_setting i.pulumi v out) m (ground (arith, fine, h)))
]

pub gather-good :
    (is : List Item) (out : Settings) → All IsGood is → (m : Settings) × (gather out is ≡ good m)
unfolding gather
gather-good [] out h = (out, refl)
gather-good (i ∷ is) out h =
    let (m, rest) = gather-good is (put_setting i.pulumi h.0.0 out) h.1 in
    (m, ground (arith, h.0.1, rest))

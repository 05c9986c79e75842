-- ===== src/Pulumi/Unique.antt =====
-- internal/iac/pulumi_ts/expr.go: the names of constants differ, and the search for a free one ends.
use cloudcc.Base.{
  ℕ, zero, suc, ◌≤◌, ◌≡◌, ◌≢◌, refl, sym, ap, ◌∙◌, subst, true, false, ◌||◌, none, some, List, [],
  ◌∷◌, ◌++◌, Text, codes, str_eq, str_eq_iff, elem, elem-append, length, IsDistinct,
  IsDistinct-snoc, Within, length-le_of_Within, arith, Bool-cases, Option-cases, inl, inr, put,
  fetch, fetch-put, append-nil, All,
}
use mathlib.Core.List.{append_cancel_left}
use cloudcc.Sanitize.Identifier.{identifier}
use cloudcc.Ir.Defs.{Key, key_string}
use cloudcc.Pulumi.Names.{
  Namer, new_var_namer, get, search, assign, assign_all, reserved_names, reserve_all,
  name_resources,
}

-- What is assumed of the printing of numbers: it gives a text, and different texts for different numbers.
pub record IsPrinting (decimal : ℕ → Text) : Type 0 where
  pub filled : (n : ℕ) → decimal n ≢ []
  pub injective : (m n : ℕ) → decimal m ≡ decimal n → m ≡ n

-- The names that are given.
unfoldable pub vals : List (Text × Text) → List Text
vals [] = []
vals ((k, v) ∷ m) = v ∷ vals m

vals-put :
    (k x : Text) (m : List (Text × Text)) → fetch k m ≡ none → vals (put k x m) ≡ vals m ++ x ∷ []
unfolding vals put fetch
vals-put k x [] h = refl
vals-put k x ((j, y) ∷ m) h = ground (arith, h, vals-put k x m)

-- The names that are given differ, are marked as taken, and are none of the reserved ones, which are taken too.
pub record IsNamed (reserved : List Text) (v : Namer) : Type 0 where
  distinct : IsDistinct (vals v.names)
  used : Within (vals v.names) v.taken
  kept : Within reserved v.taken
  clear : (x : Text) → elem x reserved ≡ true → elem x (vals v.names) ≡ false

-- What an assignment gives: a name for the key, and the names that were there.
pub record IsAssigned (v v' : Namer) (key : Key) (name : Text) : Type 0 where
  given : get v' key ≡ some name
  stable : (k : Key) (n : Text) → get v k ≡ some n → get v' k ≡ some n

add_name-IsNamed :
    (reserved : List Text) (v : Namer) (k name : Text)
    → fetch k v.names ≡ none
    → elem name v.taken ≡ false
    → IsNamed reserved v
    → IsNamed reserved (record { names = put k name v.names; taken = name ∷ v.taken })
unfolding elem
add_name-IsNamed reserved v k name new free n =
    let e = vals-put k name v.names new in
    let fresh : elem name (vals v.names) ≡ false = elim (Bool-cases (elem name (vals v.names))) [
      | inr f ↦ f
      | inl t ↦ absurd (ground (arith, n.used name t, free))
    ] in
    let grown : (x : Text)
        → elem x (vals (put k name v.names)) ≡ (elem x (vals v.names) || str_eq x name) =
      λ x. ap (elem x) e ∙ ground (arith, elem-append x (vals v.names) (name ∷ [])) in
    record {
      distinct = subst IsDistinct (sym e) (IsDistinct-snoc (vals v.names) name n.distinct fresh);
      used = λ x h. ground (arith, grown x, h, n.used x);
      kept = λ x h. ground (arith, n.kept x h);
      clear = λ x h. elim (Bool-cases (str_eq x name)) [
        | inr other ↦ ground (arith, grown x, other, n.clear x h)
        | inl same ↦
            let q : x ≡ name = ground (arith, same, str_eq_iff x name) in
            absurd (ground (arith, q, n.kept x h, free))
      ];
    }

module _ (decimal : ℕ → Text) (good : IsPrinting decimal) where
  unfoldable numbered : ℕ → Text → ℕ → List Text
  numbered zero base i = []
  numbered (suc fuel) base i = (base ++ decimal i) ∷ numbered fuel base (suc i)

  elem-numbered :
      (x base : Text) (fuel i : ℕ)
      → elem x (numbered fuel base i) ≡ true
      → (j : ℕ) × (i ≤ j) × (x ≡ base ++ decimal j)
  unfolding numbered elem
  elem-numbered x base zero i h = absurd (ground (arith, h))
  elem-numbered x base (suc fuel) i h = elim (Bool-cases (str_eq x (base ++ decimal i))) [
    | inl same ↦ (i, omega arith, ground (arith, same, str_eq_iff x (base ++ decimal i)))
    | inr other ↦
        let (j, le, e) = elem-numbered x base fuel (suc i) (ground (arith, other, h)) in
        (j, omega (arith, le), e)
  ]

  numbered-IsDistinct : (base : Text) (fuel i : ℕ) → IsDistinct (numbered fuel base i)
  unfolding numbered
  numbered-IsDistinct base zero i = tt
  numbered-IsDistinct base (suc fuel) i = (
    elim (Bool-cases (elem (base ++ decimal i) (numbered fuel base (suc i)))) [
      | inr n ↦ n
      | inl y ↦
          let (j, le, e) = elem-numbered (base ++ decimal i) base fuel (suc i) y in
          let same : i ≡ j =
            good.injective i j (append_cancel_left base (decimal i) (decimal j) e) in
          absurd (omega (arith, le, same))
    ],
    numbered-IsDistinct base fuel (suc i),
  )

  base-not-numbered : (base : Text) (fuel i : ℕ) → elem base (numbered fuel base i) ≡ false
  base-not-numbered base fuel i = elim (Bool-cases (elem base (numbered fuel base i))) [
    | inr n ↦ n
    | inl y ↦
        let (j, le, e) = elem-numbered base base fuel i y in
        absurd
          (good.filled j (append_cancel_left base (decimal j) [] (sym e ∙ sym (append-nil base))))
  ]

  length-numbered : (base : Text) (fuel i : ℕ) → length (numbered fuel base i) ≡ fuel
  unfolding numbered
  length-numbered base zero i = refl
  length-numbered base (suc fuel) i = ap suc (length-numbered base fuel (suc i))

  -- A search that finds nothing has seen every candidate taken.
  search-none :
      (fuel : ℕ) (base name : Text) (i : ℕ) (taken : List Text)
      → search decimal fuel base name i taken ≡ none
      → Within (name ∷ numbered fuel base i) taken
  unfolding search numbered elem
  search-none zero base name i taken h x e =
      let same : x ≡ name = ground (arith, e, str_eq_iff x name) in ground (arith, same, h)
  search-none (suc fuel) base name i taken h x e = elim (Bool-cases (elem name taken)) [
    | inr free ↦ absurd (ground (arith, free, h))
    | inl used ↦ elim (Bool-cases (str_eq x name)) [
      | inl same ↦
          let q : x ≡ name = ground (arith, same, str_eq_iff x name) in ground (arith, q, used)
      | inr other ↦
          search-none fuel base (base ++ decimal i) (suc i) taken (ground (arith, used, h)) x
            (ground (arith, other, e))
    ]
  ]

  search-free :
      (fuel : ℕ) (base name : Text) (i : ℕ) (taken : List Text) (found : Text)
      → search decimal fuel base name i taken ≡ some found
      → elem found taken ≡ false
  unfolding search
  search-free zero base name i taken found h = elim (Bool-cases (elem name taken)) [
    | inl used ↦ absurd (ground (arith, used, h))
    | inr free ↦
        let same : name ≡ found = ground (arith, free, h) in
        subst (λ n. elem n taken ≡ false) same free
  ]
  search-free (suc fuel) base name i taken found h = elim (Bool-cases (elem name taken)) [
    | inl used ↦
        search-free fuel base (base ++ decimal i) (suc i) taken found (ground (arith, used, h))
    | inr free ↦
        let same : name ≡ found = ground (arith, free, h) in
        subst (λ n. elem n taken ≡ false) same free
  ]

  search_total :
      (base : Text) (taken : List Text)
      → (found : Text) × (search decimal (length taken) base base 2 taken ≡ some found)
        × (elem found taken ≡ false)
  search_total base taken = elim (Option-cases (search decimal (length taken) base base 2 taken)) [
    | inr (found, e) ↦ (found, e, search-free (length taken) base base 2 taken found e)
    | inl none_free ↦
        let all =
          length-le_of_Within (base ∷ numbered (length taken) base 2) taken
            (base-not-numbered base (length taken) 2, numbered-IsDistinct base (length taken) 2)
            (search-none (length taken) base base 2 taken none_free) in
        absurd (omega (arith, all, length-numbered base (length taken) 2))
  ]

  -- `assign` always gives a name. The names stay different from each other and from the reserved ones, and those that
  -- were given before stay.
  pub assign_total :
      (reserved : List Text) (v : Namer) (key : Key) (suffix : Text)
      → IsNamed reserved v
      → (name : Text) × (v' : Namer) × (assign decimal v key suffix ≡ some (name, v'))
        × IsNamed reserved v'
        × IsAssigned v v' key name
  unfolding assign
  assign_total reserved v key suffix n = elim (Option-cases (fetch (key_string key) v.names)) [
    | inr (existing, there) ↦
        (existing, v, ground (arith, there), n, record { given = there; stable = λ k m h. h })
    | inl new ↦
        let base = identifier (key.id ++ codes "-" ++ suffix) in
        let (name, ends, free) = search_total base v.taken in
        (
          name,
          record { names = put (key_string key) name v.names; taken = name ∷ v.taken },
          ground (arith, new, ends),
          add_name-IsNamed reserved v (key_string key) name new free n,
          record {
            given =
                fetch-put (key_string key) (key_string key) name v.names
                ∙ ground (arith, str_eq_iff (key_string key) (key_string key));
            stable = λ k m h.
                fetch-put (key_string k) (key_string key) name v.names
                ∙ (elim (Bool-cases (str_eq (key_string k) (key_string key))) [
                  | inr other ↦ ground (arith, other, h)
                  | inl same ↦
                      let q : key_string k ≡ key_string key =
                        ground (arith, same, str_eq_iff (key_string k) (key_string key)) in
                      absurd (ground (arith, ap (λ t. fetch t v.names) q, new, h))
                ]);
          },
        )
  ]

  assign_all_total :
      (reserved : List Text) (keys : List (Key × Text)) (v : Namer)
      → IsNamed reserved v
      → (v' : Namer) × (assign_all decimal v keys ≡ some v')
        × IsNamed reserved v'
        × ((k : Key) (n : Text) → get v k ≡ some n → get v' k ≡ some n)
        × All (λ key. (n : Text) × (get v' key.0 ≡ some n)) keys
  unfolding assign_all
  assign_all_total reserved [] v n = (v, refl, n, λ k m h. h, tt)
  assign_all_total reserved ((key, suffix) ∷ keys) v n =
      let (name, w, here, named, a) = assign_total reserved v key suffix n in
      let (v', rest, done, stays, given) = assign_all_total reserved keys w named in
      (
        v',
        ground (arith, here, rest),
        done,
        λ k m h. stays k m (a.stable k m h),
        ((name, stays key name a.given), given),
      )

  -- Every list of resources is named: each resource has a name, the names differ from each other, and none is a name that the program
  -- reserves.
  pub name_resources_total :
      (keys : List (Key × Text))
      → (v : Namer) × (name_resources decimal keys ≡ some v)
        × IsNamed (reserved_names decimal) v
        × All (λ key. (n : Text) × (get v key.0 ≡ some n)) keys
  unfolding name_resources elem vals
  name_resources_total keys =
      let start : IsNamed (reserved_names decimal)
          (reserve_all decimal new_var_namer (reserved_names decimal)) =
        record {
          distinct = tt;
          used = λ x h. absurd (ground (arith, h));
          kept = λ x h. ground (arith, h);
          clear = λ x h. refl;
        } in
      let (v, ends, named, stays, given) = assign_all_total (reserved_names decimal) keys _ start in
      (v, ends, named, given)

-- ===== src/Args/Conforms.antt =====
-- internal/provider/aws/lambdaargs.go: what a block must be for `translate` to take it.
use cloudcc.Base.{
  ◌≡◌, ◌↔◌, refl, ap, Bool, true, Option, none, some, Text, arith, All, Bool-cases, Option-cases,
  inl, inr,
}
use cloudcc.Config.Value.{Value, text, other, seq, block, Entries, end, entry}
use cloudcc.Base.Int.{ℤ}
use cloudcc.Args.Schema.{
  Scalar, whole, truth, odd, Setting, set_int, set_text, set_bool, set_list, set_block, Settings,
  no_settings, Complaint, Kind, arg_int, arg_string, arg_bool, arg_string_list, Arg, scalar_arg,
  block_arg, Schema, by_name,
}
use cloudcc.Args.Translate.{
  good, join_path, all_text, checked, sort_items, gather, as_block, scalar, scalar_item,
  translate_each, translate_value, translate,
}
use cloudcc.Args.Gathered.{
  IsGood, Answer-cases, All-sort_items, sort_items-All, gather-IsGood, gather-good,
}

abbrev pub Passes : Option (Setting → Option Complaint) → Setting → Type 0
Passes none s = Unit {0}
Passes (some check) s = check s ≡ none

module _ (decoded : Text → Scalar) where
  -- The converted value of a scalar of a kind.
  abbrev pub IsOfKind : Kind → Value → Setting → Type 0
  IsOfKind arg_int (other t) s = (n : ℤ) × (decoded t ≡ whole n) × (s ≡ set_int n)
  IsOfKind arg_int (text t) s = ⊥
  IsOfKind arg_int (seq xs) s = ⊥
  IsOfKind arg_int (block es) s = ⊥
  IsOfKind arg_string (text t) s = s ≡ set_text t
  IsOfKind arg_string (other t) s = ⊥
  IsOfKind arg_string (seq xs) s = ⊥
  IsOfKind arg_string (block es) s = ⊥
  IsOfKind arg_bool (other t) s = (b : Bool) × (decoded t ≡ truth b) × (s ≡ set_bool b)
  IsOfKind arg_bool (text t) s = ⊥
  IsOfKind arg_bool (seq xs) s = ⊥
  IsOfKind arg_bool (block es) s = ⊥
  IsOfKind arg_string_list (seq xs) s = (all_text xs ≡ true) × (s ≡ set_list xs)
  IsOfKind arg_string_list (text t) s = ⊥
  IsOfKind arg_string_list (other t) s = ⊥
  IsOfKind arg_string_list (block es) s = ⊥

  abbrev pub IsTaken : Arg → Value → Type 0
  IsTaken (scalar_arg name pulumi kind check) v = (s : Setting) × IsOfKind kind v s × Passes check s
  IsTaken (block_arg name pulumi fields) v = ⊥

  -- A block conforms to a schema: each of its names is the name of an argument, a block conforms to the fields of its
  -- argument, and anything else is of the kind of its argument and passes the check.
  abbrev mutual
    pub IsConforming : Schema → Entries → Type 0
    IsConforming schema end = Unit {0}
    IsConforming schema (entry k v es) =
        ((a : Arg) × (by_name k schema ≡ some a) × IsConformingTo a v) × IsConforming schema es

    pub IsConformingTo : Arg → Value → Type 0
    IsConformingTo a (text s) = IsTaken a (text s)
    IsConformingTo a (other s) = IsTaken a (other s)
    IsConformingTo a (seq xs) = IsTaken a (seq xs)
    IsConformingTo a (block es) = elim a [
      | block_arg name pulumi fields ↦ IsConforming fields es
      | scalar_arg name pulumi kind check ↦ IsTaken (scalar_arg name pulumi kind check) (block es)
    ]

module _ (lower : Text → Text) (decoded : Text → Scalar) where
  scalar-IsOfKind :
      (full : Text) (kind : Kind) (v : Value) (s : Setting)
      → scalar lower decoded full kind v ≡ good s
      → IsOfKind decoded kind v s
  unfolding scalar
  scalar-IsOfKind full arg_int (other t) s h =
      elim (decoded t) as (λ d. decoded t ≡ d → IsOfKind decoded arg_int (other t) s) [
        | whole n ↦ λ e. (n, e, ground (arith, e, h))
        | truth b ↦ λ e. absurd (ground (arith, e, h))
        | odd ↦ λ e. absurd (ground (arith, e, h))
      ]
        refl
  scalar-IsOfKind full arg_int (text t) s h = absurd (ground (arith, h))
  scalar-IsOfKind full arg_int (seq xs) s h = absurd (ground (arith, h))
  scalar-IsOfKind full arg_int (block es) s h = absurd (ground (arith, h))
  scalar-IsOfKind full arg_string (text t) s h = ground (arith, h)
  scalar-IsOfKind full arg_string (other t) s h = absurd (ground (arith, h))
  scalar-IsOfKind full arg_string (seq xs) s h = absurd (ground (arith, h))
  scalar-IsOfKind full arg_string (block es) s h = absurd (ground (arith, h))
  scalar-IsOfKind full arg_bool (other t) s h =
      elim (decoded t) as (λ d. decoded t ≡ d → IsOfKind decoded arg_bool (other t) s) [
        | whole n ↦ λ e. absurd (ground (arith, e, h))
        | truth b ↦ λ e. (b, e, ground (arith, e, h))
        | odd ↦ λ e. absurd (ground (arith, e, h))
      ]
        refl
  scalar-IsOfKind full arg_bool (text t) s h = absurd (ground (arith, h))
  scalar-IsOfKind full arg_bool (seq xs) s h = absurd (ground (arith, h))
  scalar-IsOfKind full arg_bool (block es) s h = absurd (ground (arith, h))
  scalar-IsOfKind full arg_string_list (seq xs) s h = elim (Bool-cases (all_text xs)) [
    | inl y ↦ (y, ground (arith, y, h))
    | inr n ↦ absurd (ground (arith, n, h))
  ]
  scalar-IsOfKind full arg_string_list (text t) s h = absurd (ground (arith, h))
  scalar-IsOfKind full arg_string_list (other t) s h = absurd (ground (arith, h))
  scalar-IsOfKind full arg_string_list (block es) s h = absurd (ground (arith, h))

  scalar-good :
      (full : Text) (kind : Kind) (v : Value) (s : Setting)
      → IsOfKind decoded kind v s
      → scalar lower decoded full kind v ≡ good s
  unfolding scalar
  scalar-good full arg_int (other t) s h = ground (arith, h.1, h.2)
  scalar-good full arg_int (text t) s h = absurd h
  scalar-good full arg_int (seq xs) s h = absurd h
  scalar-good full arg_int (block es) s h = absurd h
  scalar-good full arg_string (text t) s h = ground (arith, h)
  scalar-good full arg_string (other t) s h = absurd h
  scalar-good full arg_string (seq xs) s h = absurd h
  scalar-good full arg_string (block es) s h = absurd h
  scalar-good full arg_bool (other t) s h = ground (arith, h.1, h.2)
  scalar-good full arg_bool (text t) s h = absurd h
  scalar-good full arg_bool (seq xs) s h = absurd h
  scalar-good full arg_bool (block es) s h = absurd h
  scalar-good full arg_string_list (seq xs) s h = ground (arith, h.0, h.1)
  scalar-good full arg_string_list (text t) s h = absurd h
  scalar-good full arg_string_list (other t) s h = absurd h
  scalar-good full arg_string_list (block es) s h = absurd h

  checked-Passes :
      (full : Text) (check : Option (Setting → Option Complaint)) (v s : Setting)
      → checked full check v ≡ good s
      → (v ≡ s) × Passes check v
  checked-Passes full none v s h = (ground (arith, h), tt)
  checked-Passes full (some check) v s h = elim (Option-cases (check v)) [
    | inl pass ↦ (ground (arith, h, pass), pass)
    | inr (why, fails) ↦ absurd (ground (arith, h, fails))
  ]

  checked-good :
      (full : Text) (check : Option (Setting → Option Complaint)) (v : Setting)
      → Passes check v
      → checked full check v ≡ good v
  checked-good full none v h = refl
  checked-good full (some check) v h = ground (arith, h)

  scalar_item-IsTaken :
      (full : Text) (a : Arg) (v : Value) (s : Setting)
      → scalar_item lower decoded full a v ≡ good s
      → IsTaken decoded a v
  unfolding scalar_item
  scalar_item-IsTaken full (block_arg name pulumi fields) v s h = absurd (ground (arith, h))
  scalar_item-IsTaken full (scalar_arg name pulumi kind check) v s h =
      elim (Answer-cases (scalar lower decoded full kind v)) [
        | inl (e, wrong) ↦ absurd (ground (arith, wrong, h))
        | inr (w, fine) ↦
            let both = checked-Passes full check w s (ground (arith, fine, h)) in
            (w, scalar-IsOfKind full kind v w fine, both.1)
      ]

  scalar_item-good :
      (full : Text) (a : Arg) (v : Value)
      → IsTaken decoded a v
      → (s : Setting) × (scalar_item lower decoded full a v ≡ good s)
  unfolding scalar_item
  scalar_item-good full (block_arg name pulumi fields) v h = absurd h
  scalar_item-good full (scalar_arg name pulumi kind check) v h =
      (h.0, ground (arith, scalar-good full kind v h.0 h.1, checked-good full check h.0 h.2))

  mutual
    unfolding translate_value translate_each

    translate_value-IsConformingTo :
        (full : Text) (a : Arg) (v : Value) (s : Setting)
        → translate_value lower decoded full a v ≡ good s
        → IsConformingTo decoded a v
    translate_value-IsConformingTo full a (text t) s h = scalar_item-IsTaken full a (text t) s h
    translate_value-IsConformingTo full a (other t) s h = scalar_item-IsTaken full a (other t) s h
    translate_value-IsConformingTo full a (seq xs) s h = scalar_item-IsTaken full a (seq xs) s h
    translate_value-IsConformingTo full (scalar_arg name pulumi kind check) (block es) s h =
        scalar_item-IsTaken full (scalar_arg name pulumi kind check) (block es) s h
    translate_value-IsConformingTo full (block_arg name pulumi fields) (block es) s h =
        translate_each-IsConforming full fields es
          (elim (Answer-cases
            (gather no_settings (sort_items (translate_each lower decoded full fields es)))) [
              | inl (e, wrong) ↦ absurd (ground (arith, wrong, h))
              | inr (m, fine) ↦ sort_items-All IsGood _ (gather-IsGood _ no_settings m fine)
            ])

    translate_each-IsConforming :
        (path : Text) (schema : Schema) (es : Entries)
        → All IsGood (translate_each lower decoded path schema es)
        → IsConforming decoded schema es
    translate_each-IsConforming path schema end h = tt
    translate_each-IsConforming path schema (entry k v es) h =
        elim (Option-cases (by_name k schema)) [
          | inl none_there ↦ absurd (ground (arith, none_there, h.0.1))
          | inr (a, there) ↦ (
            (
              a,
              there,
              translate_value-IsConformingTo (join_path path k) a v h.0.0
                  (ground (arith, there, h.0.1)),
            ),
            translate_each-IsConforming path schema es h.1,
          )
        ]

  mutual
    unfolding translate_value translate_each

    translate_value-good :
        (full : Text) (a : Arg) (v : Value)
        → IsConformingTo decoded a v
        → (s : Setting) × (translate_value lower decoded full a v ≡ good s)
    translate_value-good full a (text t) h = scalar_item-good full a (text t) h
    translate_value-good full a (other t) h = scalar_item-good full a (other t) h
    translate_value-good full a (seq xs) h = scalar_item-good full a (seq xs) h
    translate_value-good full (scalar_arg name pulumi kind check) (block es) h =
        scalar_item-good full (scalar_arg name pulumi kind check) (block es) h
    translate_value-good full (block_arg name pulumi fields) (block es) h =
        let (m, fine) =
          gather-good _ no_settings
            (All-sort_items IsGood _ (translate_each-IsGood full fields es h)) in
        (set_block m, ap as_block fine)

    translate_each-IsGood :
        (path : Text) (schema : Schema) (es : Entries)
        → IsConforming decoded schema es
        → All IsGood (translate_each lower decoded path schema es)
    translate_each-IsGood path schema end h = tt
    translate_each-IsGood path schema (entry k v es) h =
        let (s, fine) = translate_value-good (join_path path k) h.0.0 v h.0.2 in
        ((s, ground (arith, h.0.1, fine)), translate_each-IsGood path schema es h.1)

  -- `translate` takes exactly the blocks that conform to the schema.
  pub translate_iff :
      (path : Text) (schema : Schema) (es : Entries)
      → ((m : Settings) × (translate lower decoded path schema es ≡ good m))
        ↔ IsConforming decoded schema es
  unfolding translate
  translate_iff path schema es = (
    λ h.
        translate_each-IsConforming path schema es
          (sort_items-All IsGood _ (gather-IsGood _ no_settings h.0 h.1)),
    λ h.
        gather-good _ no_settings
          (All-sort_items IsGood _ (translate_each-IsGood path schema es h)),
  )

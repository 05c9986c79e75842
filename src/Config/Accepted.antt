-- ===== src/Config/Accepted.antt =====
-- internal/config/load.go: which files `Load` accepts, and what they become.
use cloudcc.Base.{
  ◌≡◌, refl, Option, none, some, List, [], ◌∷◌, Text, codes, fetch, dict_keys, All, arith, ◌↔◌, ◌⊎◌,
  inl, inr, ap, subst, sym, ◌≢◌, Bool-cases, str_eq, str_eq_iff,
}
use cloudcc.Config.Kind
use cloudcc.Config.Resource.{ResourceConfig}
use cloudcc.Config.Merged.{HasMaps, IsMerged, merge_file-IsMerged}
use cloudcc.Config.App.{App, KindDefault, Section, new}
use cloudcc.Config.Check.{check_compute_type, renamed_type, check_platform_iff}
use cloudcc.Config.Load.{
  merge_file, File, absent, unreadable, contents, Decoded, malformed, decoded, loaded, parse_error,
  check_units, check_types, check_unit_defaults, accept, load,
}

-- A compute type that bears no name that was replaced.
abbrev pub IsCurrent : Text → Type 0
IsCurrent type = (type ≢ codes "lambda") × (type ≢ codes "ecs")

-- A unit names no platform, or is a container on one of the two that there are.
abbrev pub IsPlaced : ResourceConfig → Type 0
IsPlaced unit =
    (unit.platform ≡ [])
    ⊎ (unit.type ≡ codes "container")
      × ((unit.platform ≡ codes "kubernetes") ⊎ (unit.platform ≡ codes "serverless"))

-- What a file must satisfy to be accepted.
pub record IsAcceptable (f : App) : Type 0 where
  pub units : All (λ (id, unit). IsCurrent unit.type × IsPlaced unit) f.execution_units
  pub default_types :
      (kd : KindDefault)
      → fetch Kind.execution_unit f.defaults ≡ some kd
      → IsCurrent kd.resource.type × All IsCurrent (dict_keys kd.by_type)

check_compute_type_iff : (id type : Text) → (check_compute_type id type ≡ none) ↔ IsCurrent type
unfolding check_compute_type renamed_type
check_compute_type_iff id type =
    let lambda = str_eq_iff type (codes "lambda") in
    let ecs = str_eq_iff type (codes "ecs") in
    (
      λ h. (λ e. ground (arith, lambda.1 e, h), λ e. ground (arith, ecs.1 e, h)),
      λ (n, m). elim (Bool-cases (str_eq type (codes "lambda"))) [
        | inl y ↦ absurd (n (lambda.0 y))
        | inr l ↦ elim (Bool-cases (str_eq type (codes "ecs"))) [
          | inl y ↦ absurd (m (ecs.0 y))
          | inr k ↦ ground (arith, l, k)
        ]
      ],
    )

check_units_iff :
    (us : Section)
    → (check_units us ≡ none) ↔ All (λ (id, unit). IsCurrent unit.type × IsPlaced unit) us
unfolding check_units
check_units_iff [] = (λ h. tt, λ h. refl)
check_units_iff ((id, unit) ∷ us) =
    let rest = check_units_iff us in
    let here = check_compute_type_iff id unit.type in
    let placed = check_platform_iff id unit.type unit.platform in
    (
      λ h. ((here.0 (ground arith), placed.0 (ground arith)), rest.0 (ground arith)),
      λ h. ground (arith, here.1 h.0.0, placed.1 h.0.1, rest.1 h.1),
    )

check_types_iff : (ts : List Text) → (check_types ts ≡ none) ↔ All IsCurrent ts
unfolding check_types
check_types_iff [] = (λ h. tt, λ h. refl)
check_types_iff (t ∷ ts) =
    let rest = check_types_iff ts in
    let here = check_compute_type_iff (codes "defaults.by_type") t in
    (
      λ h. (here.0 (ground arith), rest.0 (ground arith)),
      λ h. ground (arith, here.1 h.0, rest.1 h.1),
    )

check_unit_defaults_iff :
    (d : Option KindDefault)
    → (check_unit_defaults d ≡ none) ↔ (
        (kd : KindDefault)
        → d ≡ some kd
        → IsCurrent kd.resource.type × All IsCurrent (dict_keys kd.by_type))
unfolding check_unit_defaults
check_unit_defaults_iff none = (λ h kd e. cc, λ h. refl)
check_unit_defaults_iff (some d) =
    let here = check_compute_type_iff (codes "defaults") d.resource.type in
    let rest = check_types_iff (dict_keys d.by_type) in
    let Good =
      λ (kd : KindDefault). IsCurrent kd.resource.type × All IsCurrent (dict_keys kd.by_type) in
    (
      λ h kd e.
          let same : d ≡ kd = cc in subst Good same (here.0 (ground arith), rest.0 (ground arith)),
      λ h. let (a, b) = h d refl in ground (arith, here.1 a, rest.1 b),
    )

accept_iff : (f a : App) → (accept f ≡ loaded a) ↔ (IsAcceptable f × (a ≡ merge_file new f))
unfolding accept
accept_iff f a =
    let us = check_units_iff f.execution_units in
    let ds = check_unit_defaults_iff (fetch Kind.execution_unit f.defaults) in
    (
      λ h. (
        record { units = us.0 (ground arith); default_types = ds.0 (ground arith) },
        ground arith,
      ),
      λ (k, e). ground (arith, us.1 k.units, ds.1 k.default_types, e),
    )

loaded_iff :
    (decode : Text → Decoded) (file : File) (a : App)
    → (load decode file ≡ loaded a) ↔ (
        ((file ≡ absent) × (a ≡ new))
        ⊎ ((bytes : Text) × (f : App) × (file ≡ contents bytes)
            × (decode bytes ≡ decoded f)
            × IsAcceptable f
            × (a ≡ merge_file new f)))
unfolding load
loaded_iff decode absent a = (
  λ h. inl (refl, ground arith),
  λ h. elim h [ inl (e, k) ↦ ground arith | inr (bytes, f, e, d, k, m) ↦ cc ],
)
loaded_iff decode unreadable a =
    (λ h. cc, λ h. elim h [ inl (e, k) ↦ cc | inr (bytes, f, e, d, k, m) ↦ cc ])
loaded_iff decode (contents bytes) a = (
  λ h. inr (read (decode bytes) refl h),
  λ h. elim h [
    | inl (e, k) ↦ cc
    | inr (other, f, e, d, k, m) ↦
        let same : bytes ≡ other = cc in
        let there = (accept_iff f a).1 (k, m) in ground (arith, same, d, there, ap decode same)
  ],
)
  where
    read :
        (d : Decoded)
        → decode bytes ≡ d
        → elim d [ malformed e ↦ parse_error e | decoded f ↦ accept f ] ≡ loaded a
        → (b : Text) × (f : App) × (contents bytes ≡ contents b)
          × (decode b ≡ decoded f)
          × IsAcceptable f
          × (a ≡ merge_file new f)
    read (malformed e) k h = cc
    read (decoded f) k h =
        let (good, same) = (accept_iff f a).0 h in (bytes, f, refl, k, good, same)

-- A decoder answers sections whose keys are different. Then `Load` gives a configuration exactly if there is no file, and then it is the built-in one; or the
-- file can be read and decoded, no unit and no type in the defaults of execution units bears a name that was
-- replaced, the platforms of the units are accepted, and then it is the file merged over the built-in
-- configuration: every section of it has the entries of the file, and every default of a kind that the file
-- leaves out is kept.
pub load_iff :
    (decode : Text → Decoded)
    → ((bytes : Text) (f : App) → decode bytes ≡ decoded f → HasMaps f)
    → (file : File) (a : App)
    → (load decode file ≡ loaded a) ↔ (
        ((file ≡ absent) × (a ≡ new))
        ⊎ ((bytes : Text) × (f : App) × (file ≡ contents bytes)
            × (decode bytes ≡ decoded f)
            × IsAcceptable f
            × (a ≡ merge_file new f)
            × IsMerged f a))
load_iff decode maps file a =
    let h = loaded_iff decode file a in
    (
      λ l. elim (h.0 l) [
        | inl there ↦ inl there
        | inr (bytes, f, e, d, k, m) ↦ inr (
          bytes,
          f,
          e,
          d,
          k,
          m,
          subst (IsMerged f) (sym m) (merge_file-IsMerged f (maps bytes f d)),
        )
      ],
      λ r. elim r [
        | inl there ↦ h.1 (inl there)
        | inr (bytes, f, e, d, k, m, full) ↦ h.1 (inr (bytes, f, e, d, k, m))
      ],
    )

-- ===== src/Config/Merged.antt =====
-- internal/config/load.go: what `merge` makes of the built-in configuration and a file.
use cloudcc.Base.{
  ◌≡◌, refl, none, some, List, [], ◌∷◌, Text, codes, fetch, dict_keys, IsDistinct, fetch-put,
  str_eq_iff, fetch-none, arith, ap, sym, ◌∙◌, Bool-cases, inl, inr, str_eq,
}
use cloudcc.Config.Value.{deep_merge}
use cloudcc.Config.Resource.{blank, merge}
use cloudcc.Config.App.{App, KindDefault, Section, new, builtin_defaults}
use cloudcc.Config.Load.{
  or_blank, or_no_default, stronger_text, merge_section, merge_default, merge_defaults, merge_file,
}

-- After a merge of two sections, the ids of the stronger being different, an id has the entry of the weaker with that of the stronger on top, and an id that
-- the stronger does not have keeps its entry.
pub fetch-merge_section :
    (k : Text) (base over : Section)
    → IsDistinct (dict_keys over)
    → fetch k (merge_section base over) ≡ elim (fetch k over) [
      | none ↦ fetch k base
      | some rc ↦ some (merge (or_blank (fetch k base)) rc)
    ]
unfolding merge_section fetch
fetch-merge_section k base [] h = refl
fetch-merge_section k base ((j, rc) ∷ over) h = ground (
  arith,
  fetch-put k j (merge (or_blank (fetch j (merge_section base over))) rc) (merge_section base over),
  fetch-merge_section k base over h.1,
  fetch-merge_section j base over h.1,
  fetch-none j over h.0,
  str_eq_iff k j,
)

fetch-merge_defaults :
    (k : Text) (base over : List (Text × KindDefault))
    → IsDistinct (dict_keys over)
    → fetch k (merge_defaults base over) ≡ elim (fetch k over) [
      | none ↦ fetch k base
      | some kd ↦ some (merge_default (or_no_default (fetch k base)) kd)
    ]
unfolding merge_defaults fetch
fetch-merge_defaults k base [] h = refl
fetch-merge_defaults k base ((j, kd) ∷ over) h =
    let out = merge_defaults base over in
    let same : fetch j out ≡ fetch j base =
      fetch-merge_defaults j base over h.1 ∙ rw (fetch-none j over h.0) refl in
    fetch-put k j (merge_default (or_no_default (fetch j out)) kd) out
    ∙ elim (Bool-cases (str_eq k j)) [
      | inl y ↦ rw y (
          ap (λ o. some (merge_default (or_no_default o) kd))
            (same ∙ ap (λ x. fetch x base) (sym ((str_eq_iff k j).0 y))))
      | inr n ↦ rw n (fetch-merge_defaults k base over h.1)
    ]

-- The keys of every section of a file are different: in Go they are maps.
pub record HasMaps (f : App) : Type 0 where
  pub kinds : IsDistinct (dict_keys f.defaults)
  pub types :
      (k : Text) (kd : KindDefault)
      → fetch k f.defaults ≡ some kd
      → IsDistinct (dict_keys kd.by_type)
  pub units : IsDistinct (dict_keys f.execution_units)
  pub gateways : IsDistinct (dict_keys f.exposed)
  pub stores : IsDistinct (dict_keys f.persisted)
  pub topics : IsDistinct (dict_keys f.pubsub)
  pub sites : IsDistinct (dict_keys f.static_units)
  pub vars : IsDistinct (dict_keys f.config_vars)

-- The text, or the other one where it is not given.
abbrev given_or : Text → Text → Text
given_or [] other = other
given_or (c ∷ s) other = c ∷ s

-- The section has the entries of the file, and no others.
abbrev IsFrom : Section → Section → Type 0
IsFrom file section =
    (k : Text)
    → fetch k section ≡ elim (fetch k file) [ none ↦ none | some rc ↦ some (merge blank rc) ]

-- The configuration `a` is the file `f` over the built-in one, which has no app, no section and no parameter.
pub record IsMerged (f a : App) : Type 0 where
  app_given : a.app ≡ f.app
  provider_given : a.provider ≡ given_or f.provider (codes "aws")
  out_dir_given : a.out_dir ≡ given_or f.out_dir (codes "compiled")
  units : IsFrom f.execution_units a.execution_units
  gateways : IsFrom f.exposed a.exposed
  stores : IsFrom f.persisted a.persisted
  topics : IsFrom f.pubsub a.pubsub
  sites : IsFrom f.static_units a.static_units
  vars : IsFrom f.config_vars a.config_vars
  logging_given : a.logging ≡ merge blank f.logging
  params_given : a.pulumi_params ≡ deep_merge none f.pulumi_params
  builtin_kept :
      (k : Text) → fetch k f.defaults ≡ none → fetch k a.defaults ≡ fetch k builtin_defaults
  default_given :
      (k : Text) (kd : KindDefault)
      → fetch k f.defaults ≡ some kd
      → (d : KindDefault) × (fetch k a.defaults ≡ some d)
        × (d.resource ≡ merge (or_no_default (fetch k builtin_defaults)).resource kd.resource)
        × ((t : Text)
            → fetch t d.by_type ≡ elim (fetch t kd.by_type) [
              | none ↦ fetch t (or_no_default (fetch k builtin_defaults)).by_type
              | some rc ↦
                  some (
                    merge
                      (or_blank (fetch t (or_no_default (fetch k builtin_defaults)).by_type))
                      rc)
            ])

section-IsFrom :
    (file : Section) → IsDistinct (dict_keys file) → IsFrom file (merge_section [] file)
unfolding fetch
section-IsFrom file h k = fetch-merge_section k [] file h

pub merge_file-IsMerged : (f : App) → HasMaps f → IsMerged f (merge_file new f)
unfolding merge_file merge_default
merge_file-IsMerged f h = record {
  app_given = elim f.app as (λ x. stronger_text [] x ≡ x) [ [] ↦ refl | c ∷ s ↦ refl ];
  provider_given =
      elim f.provider as (λ x. stronger_text (codes "aws") x ≡ given_or x (codes "aws")) [
        | [] ↦ refl
        | c ∷ s ↦ refl
      ];
  out_dir_given =
      elim f.out_dir as (λ x. stronger_text (codes "compiled") x ≡ given_or x (codes "compiled")) [
        | [] ↦ refl
        | c ∷ s ↦ refl
      ];
  units = section-IsFrom f.execution_units h.units;
  gateways = section-IsFrom f.exposed h.gateways;
  stores = section-IsFrom f.persisted h.stores;
  topics = section-IsFrom f.pubsub h.topics;
  sites = section-IsFrom f.static_units h.sites;
  vars = section-IsFrom f.config_vars h.vars;
  logging_given = refl;
  params_given = refl;
  builtin_kept =
      λ k e. ground (arith, fetch-merge_defaults k builtin_defaults f.defaults h.kinds, e);
  default_given = λ k kd e. (
    merge_default (or_no_default (fetch k builtin_defaults)) kd,
    ground (arith, fetch-merge_defaults k builtin_defaults f.defaults h.kinds, e),
    refl,
    λ t.
        fetch-merge_section t (or_no_default (fetch k builtin_defaults)).by_type kd.by_type
          (h.types k kd e),
  );
}

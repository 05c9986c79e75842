-- ===== src/Args/Placed.antt =====
-- internal/provider/aws/lambdaargs.go: `CheckConfigurationIsSupported`.
use cloudcc.Base.{
  ◌≡◌, ◌↔◌, ap, ◌∙◌, refl, true, none, some, List, [], ◌∷◌, Text, fetch, dict_keys, sort_strings,
  elem, elem-sort_strings, str_eq, str_eq_iff, arith, All, Bool-cases, Option-cases, inl, inr,
  fetch-none,
}
use cloudcc.Config.Resource.{ResourceConfig}
use cloudcc.Config.App.{App, Section}
use cloudcc.Args.Units.{
  swept, configured, misplaced_in, misplaced, check_configuration_is_supported,
}

-- No declaration of the section sets what only a unit may set.
abbrev pub IsPlain : Section → Type 0
IsPlain entries =
    (id : Text) (rc : ResourceConfig) → fetch id entries ≡ some rc → configured rc ≡ none

fetch-elem :
    (id : Text) (entries : Section) (rc : ResourceConfig)
    → fetch id entries ≡ some rc
    → elem id (dict_keys entries) ≡ true
fetch-elem id entries rc h = elim (Bool-cases (elem id (dict_keys entries))) [
  | inl i ↦ i
  | inr n ↦ absurd (ground (arith, fetch-none id entries n, h))
]

misplaced_in-none :
    (label : Text) (entries : Section) (ids : List Text)
    → misplaced_in label entries ids ≡ none
    → (id : Text) (rc : ResourceConfig) → elem id ids ≡ true
    → fetch id entries ≡ some rc
    → configured rc ≡ none
unfolding misplaced_in elem
misplaced_in-none label entries [] h id rc i f = absurd (ground (arith, i))
misplaced_in-none label entries (j ∷ ids) h id rc i f = elim (Option-cases (fetch j entries)) [
  | inl absent ↦
      misplaced_in-none label entries ids (ground (arith, absent, h)) id rc
        (elim (Bool-cases (str_eq id j)) [
          | inr other ↦ ground (arith, other, i)
          | inl same ↦
              let e : id ≡ j = ground (arith, same, str_eq_iff id j) in
              absurd (ground (arith, e, absent, f))
        ])
        f
  | inr (rc', there) ↦ elim (Option-cases (configured rc')) [
    | inr (what, set) ↦ absurd (ground (arith, there, set, h))
    | inl quiet ↦ elim (Bool-cases (str_eq id j)) [
      | inl same ↦
          let e : id ≡ j = ground (arith, same, str_eq_iff id j) in
          let r : rc ≡ rc' = ground (arith, e, there, f) in ap configured r ∙ quiet
      | inr other ↦
          misplaced_in-none label entries ids (ground (arith, there, quiet, h)) id rc
            (ground (arith, other, i)) f
    ]
  ]
]

plain-misplaced_in :
    (label : Text) (entries : Section) (ids : List Text)
    → IsPlain entries
    → misplaced_in label entries ids ≡ none
unfolding misplaced_in
plain-misplaced_in label entries [] p = refl
plain-misplaced_in label entries (id ∷ ids) p = elim (Option-cases (fetch id entries)) [
  | inl absent ↦ ground (arith, absent, plain-misplaced_in label entries ids p)
  | inr (rc, there) ↦ ground (arith, there, p id rc there, plain-misplaced_in label entries ids p)
]

section-IsPlain :
    (label : Text) (entries : Section)
    → misplaced_in label entries (sort_strings (dict_keys entries)) ≡ none
    → IsPlain entries
section-IsPlain label entries h id rc f =
    misplaced_in-none label entries (sort_strings (dict_keys entries)) h id rc
      (elem-sort_strings id (dict_keys entries) ∙ fetch-elem id entries rc f) f

misplaced-none :
    (sections : List (Text × Section)) → misplaced sections ≡ none → All (λ s. IsPlain s.1) sections
unfolding misplaced
misplaced-none [] h = tt
misplaced-none ((label, entries) ∷ sections) h =
    elim (Option-cases (misplaced_in label entries (sort_strings (dict_keys entries)))) [
      | inl e ↦ (section-IsPlain label entries e, misplaced-none sections (ground (arith, e, h)))
      | inr (m, e) ↦ absurd (ground (arith, e, h))
    ]

plain-misplaced :
    (sections : List (Text × Section)) → All (λ s. IsPlain s.1) sections → misplaced sections ≡ none
unfolding misplaced
plain-misplaced [] h = refl
plain-misplaced ((label, entries) ∷ sections) h = ground (
  arith,
  plain-misplaced_in label entries (sort_strings (dict_keys entries)) h.0,
  plain-misplaced sections h.1,
)

-- The check passes exactly for the applications whose gateways, stores, topics, static units and configuration variables
-- set no block of a provider, no memory and no timeout.
pub check_configuration_is_supported_iff :
    (app : App)
    → (check_configuration_is_supported app ≡ none) ↔ (
        IsPlain app.exposed
        × IsPlain app.persisted
        × IsPlain app.pubsub
        × IsPlain app.static_units
        × IsPlain app.config_vars)
unfolding check_configuration_is_supported
check_configuration_is_supported_iff app = (
  λ h. let (a, (b, (c, (d, (e, u))))) = misplaced-none (swept app) h in (a, b, c, d, e),
  λ h. plain-misplaced (swept app) (h.0, (h.1, (h.2, (h.3, (h.4, tt))))),
)

-- ===== src/Config/Check.antt =====
-- internal/config/config.go and load.go: the checks on the application's name, on compute types and on
-- platforms, and `Validate`.
use cloudcc.Base.{
  ℕ, ◌≡◌, refl, Bool, true, ◌||◌, ◌&&◌, Option, none, some, List, [], ◌∷◌, Text, str_eq,
  if◌then◌else◌, codes, elem, not, ltb, byte_len, is_lower, is_upper, is_digit, dict_keys,
  sort_strings, All, arith, inl, inr, ◌↔◌, ◌≢◌, ◌≤◌, has_char, sym, ◌∙◌, str_eq_iff, ◌⊎◌,
  elem-sort_strings,
}
use cloudcc.Config.Kind.{is_kind}
use cloudcc.Config.App.{App}

-- The errors, with the values that their messages name.
pub data Error : Type 0 where
  name_required empty_out_dir : Error
  name_too_long : Text → ℕ → Error
  name_invalid unsupported_provider unknown_kind : Text → Error
  platform_on_function : (id type : Text) → Error
  no_platform : (id platform : Text) → Error
  renamed : (id old now : Text) → Error

-- The class `[\w\-.:/]` of the name's regular expression, which must fit the whole name.
unfoldable pub is_name_char : ℕ → Bool
unfolding has_char
is_name_char c = is_lower c || is_upper c || is_digit c || has_char c (codes "_-.:/")

unfoldable pub all_chars : (ℕ → Bool) → Text → Bool
all_chars p [] = true
all_chars p (c ∷ s) = p c && all_chars p s

unfoldable pub validate_app_name : Text → Option Error
unfolding is_name_char all_chars byte_len
validate_app_name [] = some name_required
validate_app_name (c ∷ s) =
    let name = c ∷ s in
    if ltb 50 (byte_len name)
    then some (name_too_long name (byte_len name))
    else if not (all_chars is_name_char name)
    then some (name_invalid name)
    else none

abbrev pub type_function : Text
type_function = codes "function"

abbrev pub type_container : Text
type_container = codes "container"

abbrev pub kubernetes : Text
kubernetes = codes "kubernetes"

abbrev pub serverless : Text
serverless = codes "serverless"

abbrev pub platforms : List Text
platforms = kubernetes ∷ serverless ∷ []

unfoldable pub check_platform : (id type platform : Text) → Option Error
check_platform id type [] = none
check_platform id type (c ∷ s) =
    let platform = c ∷ s in
    if not (str_eq type type_container)
    then some (platform_on_function id type)
    else if elem platform platforms
    then none
    else some (no_platform id platform)

-- `renamedTypes`: what an old spelling is called now.
unfoldable pub renamed_type : Text → Option Text
unfolding str_eq
renamed_type type =
    if str_eq type (codes "lambda")
    then some type_function
    else if str_eq type (codes "ecs")
    then some type_container
    else none

unfoldable pub check_compute_type : (id type : Text) → Option Error
unfolding renamed_type
check_compute_type id type = elim (renamed_type type) [
  | none ↦ none
  | some now ↦ some (renamed id type now)
]

unfoldable pub check_kinds : List Text → Option Error
unfolding is_kind
check_kinds [] = none
check_kinds (k ∷ ks) =
    let rest = check_kinds ks in if not (is_kind k) then some (unknown_kind k) else rest

unfoldable pub validate : App → Option Error
validate a = elim (validate_app_name a.app) [
  | some e ↦ some e
  | none ↦
      if not (str_eq a.provider (codes "aws"))
      then some (unsupported_provider a.provider)
      else if str_eq a.out_dir []
      then some empty_out_dir
      else check_kinds (sort_strings (dict_keys a.defaults))
]

-- What a name may look like.
pub record IsAppName (name : Text) : Type 0 where
  pub given : name ≢ []
  pub fits : byte_len name ≤ 50
  pub allowed : All (λ c. is_name_char c ≡ true) name

all_chars-All : (p : ℕ → Bool) (s : Text) → (all_chars p s ≡ true) ↔ All (λ c. p c ≡ true) s
unfolding all_chars
all_chars-All p [] = (λ h. tt, λ h. refl)
all_chars-All p (c ∷ s) =
    let rest = all_chars-All p s in
    (λ h. (ground arith, rest.0 (ground arith)), λ h. ground (arith, h.0, rest.1 h.1))

-- A name is accepted exactly if it is given, has at most 50 bytes and consists of letters, digits and
-- `_-.:/`.
pub validate_app_name_iff : (name : Text) → (validate_app_name name ≡ none) ↔ IsAppName name
unfolding validate_app_name
validate_app_name_iff [] = (λ h. cc, λ h. absurd (h.given refl))
validate_app_name_iff (c ∷ s) = (
  λ h. record {
    given = λ e. cc;
    fits = ground arith;
    allowed = (all_chars-All is_name_char (c ∷ s)).0 (ground arith);
  },
  λ h. ground (arith, h.fits, (all_chars-All is_name_char (c ∷ s)).1 h.allowed),
)

check_kinds_iff : (ks : List Text) → (check_kinds ks ≡ none) ↔ All (λ k. is_kind k ≡ true) ks
unfolding check_kinds
check_kinds_iff [] = (λ h. tt, λ h. refl)
check_kinds_iff (k ∷ ks) =
    let rest = check_kinds_iff ks in
    (λ h. (ground arith, rest.0 (ground arith)), λ h. ground (arith, h.0, rest.1 h.1))

All-elem :
    (p : Text → Bool) (ks : List Text)
    → All (λ k. p k ≡ true) ks ↔ ((k : Text) → elem k ks ≡ true → p k ≡ true)
unfolding elem
All-elem p [] = (λ h k e. cc, λ h. tt)
All-elem p (k ∷ ks) =
    let rest = All-elem p ks in
    (
      λ h j e. ground (arith, h.0, rest.0 h.1 j, str_eq_iff j k),
      λ h. (h k (ground (arith, str_eq_iff k k)), rest.1 (λ j e. h j (ground arith))),
    )

pub record IsValid (a : App) : Type 0 where
  pub name : IsAppName a.app
  pub provider : a.provider ≡ codes "aws"
  pub out_dir : a.out_dir ≢ []
  pub kinds : (k : Text) → elem k (dict_keys a.defaults) ≡ true → is_kind k ≡ true

-- `Validate` accepts a configuration exactly if its name is a valid name, its provider is aws, it has an
-- output directory and every kind with defaults is a capability kind.
pub validate_iff : (a : App) → (validate a ≡ none) ↔ IsValid a
unfolding validate
validate_iff a =
    let sorted = sort_strings (dict_keys a.defaults) in
    let checked = check_kinds_iff sorted in
    let each = All-elem is_kind sorted in
    (
      λ h. record {
        name = (validate_app_name_iff a.app).0 (ground arith);
        provider = ground (arith, str_eq_iff a.provider (codes "aws"));
        out_dir = ground (arith, str_eq_iff a.out_dir []);
        kinds = λ k e.
            each.0 (checked.0 (ground arith)) k (elem-sort_strings k (dict_keys a.defaults) ∙ e);
      },
      λ v.
          let accepted = (validate_app_name_iff a.app).1 v.name in
          let known =
            checked.1
              (each.1 (λ k e. v.kinds k (sym (elem-sort_strings k (dict_keys a.defaults)) ∙ e))) in
          ground (
            arith,
            accepted,
            known,
            str_eq_iff a.provider (codes "aws"),
            str_eq_iff a.out_dir [],
            v.provider,
            v.out_dir,
          ),
    )

elem-platforms : (p : Text) → (elem p platforms ≡ true) ↔ ((p ≡ kubernetes) ⊎ (p ≡ serverless))
unfolding elem
elem-platforms p = (
  λ h. ground (arith, str_eq_iff p kubernetes, str_eq_iff p serverless),
  λ h. ground (arith, str_eq_iff p kubernetes, str_eq_iff p serverless),
)

-- A platform is accepted exactly if none is written, or if the unit is a container and the platform is one of the
-- two that there are.
pub check_platform_iff :
    (id type platform : Text)
    → (check_platform id type platform ≡ none) ↔ (
        (platform ≡ [])
        ⊎ (type ≡ type_container) × ((platform ≡ kubernetes) ⊎ (platform ≡ serverless)))
unfolding check_platform
check_platform_iff id type [] = (λ h. inl refl, λ h. refl)
check_platform_iff id type (c ∷ s) =
    let two = elem-platforms (c ∷ s) in
    (
      λ h. inr (ground (arith, str_eq_iff type type_container), two.0 (ground arith)),
      λ h. elim h [
        | inl e ↦ cc
        | inr (container, either) ↦ ground (arith, str_eq_iff type type_container, two.1 either)
      ],
    )

-- ===== src/Args/Accepted.antt =====
-- internal/provider/aws/lambdaargs.go and containerargs.go: which configurations of a unit are accepted, and with what.
use cloudcc.Base.{
  ℕ, zero, suc, ◌≤◌, ◌≡◌, ◌↔◌, ◌⊎◌, refl, true, Option, none, List, [], ◌∷◌, Text, codes, str_eq,
  fetch, arith, Bool-cases, Option-cases, inl, inr,
}
use cloudcc.Base.Int.{ℤ, pos, negsuc}
use cloudcc.Config.Value.{Entries, end, entry}
use cloudcc.Config.Resource.{ResourceConfig}
use cloudcc.Args.Schema.{
  Scalar, Settings, no_settings, lambda_args, portable_args, function_resource_key,
}
use cloudcc.Args.Translate.{translate}
use cloudcc.Args.Units.{
  entries_of, foreign_key, portable_entry, put_settings, with_args, portable_complaint,
  put_portable, lambda_block, lambda_function_args,
}
use cloudcc.Args.Conforms.{IsConforming, translate_iff}
use cloudcc.Args.Gathered.{Answer-cases}

-- Every block of a configuration is for one resource.
abbrev pub IsOwn : Text → List (Text × Option Entries) → Type 0
IsOwn own [] = Unit {0}
IsOwn own ((k, es) ∷ m) = (str_eq k own ≡ true) × IsOwn own m

pub foreign_key-IsOwn :
    (own : Text) (m : List (Text × Option Entries)) → foreign_key own m ≡ none → IsOwn own m
unfolding foreign_key
foreign_key-IsOwn own [] h = tt
foreign_key-IsOwn own ((k, es) ∷ m) h = elim (Bool-cases (str_eq k own)) [
  | inl e ↦ (e, foreign_key-IsOwn own m (ground (arith, e, h)))
  | inr n ↦ absurd (ground (arith, n, h))
]

pub IsOwn-foreign_key :
    (own : Text) (m : List (Text × Option Entries)) → IsOwn own m → foreign_key own m ≡ none
unfolding foreign_key
IsOwn-foreign_key own [] h = refl
IsOwn-foreign_key own ((k, es) ∷ m) h = ground (arith, h.0, IsOwn-foreign_key own m h.1)

-- A block without portable settings.
abbrev pub HasNoPortable : Entries → Type 0
HasNoPortable end = Unit {0}
HasNoPortable (entry k v es) = (fetch k portable_args ≡ none) × HasNoPortable es

portable_entry-none : (es : Entries) → portable_entry es ≡ none → HasNoPortable es
unfolding portable_entry
portable_entry-none end h = tt
portable_entry-none (entry k v es) h = elim (Option-cases (fetch k portable_args)) [
  | inl e ↦ (e, portable_entry-none es (ground (arith, e, h)))
  | inr (p, e) ↦ absurd (ground (arith, e, h))
]

HasNoPortable-none : (es : Entries) → HasNoPortable es → portable_entry es ≡ none
unfolding portable_entry
HasNoPortable-none end h = refl
HasNoPortable-none (entry k v es) h = ground (arith, h.0, HasNoPortable-none es h.1)

-- A portable setting is not given, or in its range.
abbrev pub IsWithin : ℕ → ℕ → ℤ → Type 0
IsWithin low high (pos n) = (n ≡ 0) ⊎ ((low ≤ n) × (n ≤ high))
IsWithin low high (negsuc n) = ⊥

portable_complaint-none :
    (low high : ℕ) (unit : Text) (n : ℤ)
    → portable_complaint low high unit n ≡ none
    → IsWithin low high n
portable_complaint-none low high unit (pos zero) h = inl refl
portable_complaint-none low high unit (pos (suc n)) h = inr (ground (arith, h))
portable_complaint-none low high unit (negsuc n) h = absurd (ground (arith, h))

IsWithin-none :
    (low high : ℕ) (unit : Text) (n : ℤ)
    → IsWithin low high n
    → portable_complaint low high unit n ≡ none
IsWithin-none low high unit (pos zero) h = refl
IsWithin-none low high unit (pos (suc n)) (inl h) = absurd (omega (arith, h))
IsWithin-none low high unit (pos (suc n)) (inr h) = ground (arith, h.0, h.1)
IsWithin-none low high unit (negsuc n) h = absurd h

-- What a unit that is a function may set: a memory and a timeout in the ranges of Lambda, and a block of the function
-- that conforms to the schema and has no portable setting.
pub record IsLambdaConfig (decoded : Text → Scalar) (cfg : ResourceConfig) : Type 0 where
  memory : IsWithin 128 10240 cfg.memory
  timeout : IsWithin 1 900 cfg.timeout
  own : IsOwn function_resource_key cfg.provider_args
  portable : HasNoPortable (entries_of (fetch function_resource_key cfg.provider_args))
  conforming :
      IsConforming decoded lambda_args (entries_of (fetch function_resource_key cfg.provider_args))

module _ (lower : Text → Text) (decoded : Text → Scalar) where
  lambda_block-good :
      (es : Entries) (out : Settings)
      → HasNoPortable es
      → IsConforming decoded lambda_args es
      → (m : Settings) × (lambda_block lower decoded es out ≡ with_args m)
  unfolding lambda_block
  lambda_block-good end out p c = (out, refl)
  lambda_block-good (entry k v es) out p c =
      let (m, fine) = (translate_iff lower decoded [] lambda_args (entry k v es)).1 c in
      let quiet = HasNoPortable-none (entry k v es) p in
      (put_settings m out, ground (arith, quiet, fine))

  lambda_block-taken :
      (es : Entries) (out m : Settings)
      → lambda_block lower decoded es out ≡ with_args m
      → HasNoPortable es × IsConforming decoded lambda_args es
  unfolding lambda_block
  lambda_block-taken end out m h = (tt, tt)
  lambda_block-taken (entry k v es) out m h = elim (Option-cases (portable_entry (entry k v es))) [
    | inr (p, e) ↦ absurd (ground (arith, e, h))
    | inl quiet ↦ elim (Answer-cases (translate lower decoded [] lambda_args (entry k v es))) [
      | inl (e, wrong) ↦ absurd (ground (arith, quiet, wrong, h))
      | inr (n, fine) ↦ (
        portable_entry-none (entry k v es) quiet,
        (translate_iff lower decoded [] lambda_args (entry k v es)).0 (n, fine),
      )
    ]
  ]

  lambda_function_args-good :
      (cfg : ResourceConfig)
      → IsLambdaConfig decoded cfg
      → (m : Settings) × (lambda_function_args lower decoded cfg ≡ with_args m)
  unfolding lambda_function_args
  lambda_function_args-good cfg c =
      let memory = IsWithin-none 128 10240 (codes "MB") cfg.memory c.memory in
      let timeout = IsWithin-none 1 900 (codes "seconds") cfg.timeout c.timeout in
      let own = IsOwn-foreign_key function_resource_key cfg.provider_args c.own in
      let (m, fine) =
        lambda_block-good (entries_of (fetch function_resource_key cfg.provider_args))
          (put_portable (codes "timeout") cfg.timeout
            (put_portable (codes "memorySize") cfg.memory no_settings))
          c.portable c.conforming in
      (m, ground (arith, memory, timeout, own, fine))

  lambda_function_args-taken :
      (cfg : ResourceConfig) (m : Settings)
      → lambda_function_args lower decoded cfg ≡ with_args m
      → IsLambdaConfig decoded cfg
  unfolding lambda_function_args
  lambda_function_args-taken cfg m h =
      elim (Option-cases (portable_complaint 128 10240 (codes "MB") cfg.memory)) [
        | inr (why, e) ↦ absurd (ground (arith, e, h))
        | inl memory ↦
            elim (Option-cases (portable_complaint 1 900 (codes "seconds") cfg.timeout)) [
              | inr (why, e) ↦ absurd (ground (arith, memory, e, h))
              | inl timeout ↦
                  elim (Option-cases (foreign_key function_resource_key cfg.provider_args)) [
                    | inr (key, e) ↦ absurd (ground (arith, memory, timeout, e, h))
                    | inl own ↦
                        let both =
                          lambda_block-taken
                            (entries_of (fetch function_resource_key cfg.provider_args))
                            (put_portable (codes "timeout") cfg.timeout
                              (put_portable (codes "memorySize") cfg.memory no_settings))
                            m (ground (arith, memory, timeout, own, h)) in
                        record {
                          memory = portable_complaint-none 128 10240 (codes "MB") cfg.memory memory;
                          timeout =
                              portable_complaint-none 1 900 (codes "seconds") cfg.timeout timeout;
                          own = foreign_key-IsOwn function_resource_key cfg.provider_args own;
                          portable = both.0;
                          conforming = both.1;
                        }
                  ]
            ]
      ]

  -- `LambdaFunctionArgs` accepts exactly the configurations that a function may have: a memory of 128 to 10240 and a timeout
  -- of 1 to 900, if they are given, no block but that of the function, and in it no portable setting and only
  -- arguments of the schema, each of its kind and past its check.
  pub lambda_function_args_iff :
      (cfg : ResourceConfig)
      → ((m : Settings) × (lambda_function_args lower decoded cfg ≡ with_args m))
        ↔ IsLambdaConfig decoded cfg
  lambda_function_args_iff cfg =
      (λ h. lambda_function_args-taken cfg h.0 h.1, lambda_function_args-good cfg)

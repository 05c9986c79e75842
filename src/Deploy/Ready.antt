-- ===== src/Deploy/Ready.antt =====
-- internal/deploy/preflight.go: when a deployment goes on, and with which warnings.
use cloudcc.Base.{
  ◌≡◌, Bool, false, some, ◌≢◌, ◌⊎◌, ◌↔◌, refl, subst, true, none, List, [], ◌∷◌, ◌++◌, Text, str_eq,
  str_eq_iff, if◌then◌else◌, arith, Option-cases, codes, Bool-cases, inl, inr,
}
use cloudcc.Deploy.Preflight.{
  StateRead, absent, broken, fingerprint, Machine, PreflightInput, Refusal, Warning, no_uv,
  forced_without_state, forced_stale, credentials_present, Judged, refuses, goes_on, judge,
  preflight,
}

-- The state agrees with the source, with the warnings that it costs: none, if the fingerprints agree or the source has
-- none, and one otherwise, which takes force.
pub data IsDeployable (i : PreflightInput) : StateRead → List Warning → Type 0 where
  agrees :
      {output : Text}
      → (i.current_fingerprint ≡ []) ⊎ (output ≡ i.current_fingerprint)
      → IsDeployable i (fingerprint output) []
  stale_forced :
      {output : Text}
      → i.current_fingerprint ≢ []
      → output ≢ i.current_fingerprint
      → i.force ≡ true
      → IsDeployable i (fingerprint output) (forced_stale ∷ [])
  absent_forced : i.force ≡ true → IsDeployable i absent (forced_without_state ∷ [])

judge-IsDeployable :
    (s : StateRead) (i : PreflightInput) (ws : List Warning)
    → judge s i ≡ goes_on ws
    → IsDeployable i s ws
unfolding judge
judge-IsDeployable absent i ws h = elim (Bool-cases i.force) [
  | inr weak ↦ absurd (ground (arith, weak, h))
  | inl force ↦
      let e : forced_without_state ∷ [] ≡ ws = ground (arith, force, h) in
      subst (IsDeployable i absent) e (absent_forced force)
]
judge-IsDeployable (broken why) i ws h = absurd (ground (arith, h))
judge-IsDeployable (fingerprint output) i ws h =
    elim (Bool-cases (str_eq i.current_fingerprint [])) [
      | inl empty ↦
          let e : [] ≡ ws = ground (arith, empty, h) in
          subst (IsDeployable i (fingerprint output)) e
            (agrees (inl (ground (arith, empty, str_eq_iff i.current_fingerprint []))))
      | inr some_there ↦ elim (Bool-cases (str_eq output i.current_fingerprint)) [
        | inl same ↦
            let e : [] ≡ ws = ground (arith, some_there, same, h) in
            subst (IsDeployable i (fingerprint output)) e
              (agrees (inr (ground (arith, same, str_eq_iff output i.current_fingerprint))))
        | inr other ↦ elim (Bool-cases i.force) [
          | inr weak ↦ absurd (ground (arith, some_there, other, weak, h))
          | inl force ↦
              let e : forced_stale ∷ [] ≡ ws = ground (arith, some_there, other, force, h) in
              subst (IsDeployable i (fingerprint output)) e (
                stale_forced
                  (λ q. ground (arith, q, some_there, str_eq_iff i.current_fingerprint []))
                  (λ q. ground (arith, q, other, str_eq_iff output i.current_fingerprint)) force)
        ]
      ]
    ]

IsDeployable-judge :
    (s : StateRead) (i : PreflightInput) (ws : List Warning)
    → IsDeployable i s ws
    → judge s i ≡ goes_on ws
unfolding judge
IsDeployable-judge s i ws (agrees {output = output} (inl empty)) =
    ground (arith, empty, str_eq_iff i.current_fingerprint [])
IsDeployable-judge s i ws (agrees {output = output} (inr same)) =
    ground (arith, same, str_eq_iff output i.current_fingerprint)
IsDeployable-judge s i ws (stale_forced {output = output} n m force) = ground (
  arith,
  n,
  m,
  force,
  str_eq_iff output i.current_fingerprint,
  str_eq_iff i.current_fingerprint [],
)
IsDeployable-judge s i ws (absent_forced force) = ground (arith, force)

-- Credentials: one of three variables is set, or there is a home with one of two files.
abbrev pub HasCredentials : Machine → Type 0
HasCredentials m =
    (m.getenv (codes "AWS_ACCESS_KEY_ID") ≢ [])
    ⊎ ((m.getenv (codes "AWS_PROFILE") ≢ [])
        ⊎ ((m.getenv (codes "AWS_ROLE_ARN") ≢ [])
            ⊎ ((exists : Text → Bool) × (m.home ≡ some exists)
                × ((exists (codes "credentials") ≡ true) ⊎ (exists (codes "config") ≡ true)))))

is_set : (s : Text) → str_eq s [] ≡ false → s ≢ []
is_set s h e = ground (arith, h, str_eq_iff s [], e)

is_unset : (s : Text) → s ≢ [] → str_eq s [] ≡ false
is_unset s n = ground (arith, str_eq_iff s [], n)

credentials_present-HasCredentials : (m : Machine) → credentials_present m ≡ true → HasCredentials m
unfolding credentials_present
credentials_present-HasCredentials m h =
    elim (Bool-cases (str_eq (m.getenv (codes "AWS_ACCESS_KEY_ID")) [])) [
      | inr key ↦ inl (is_set (m.getenv (codes "AWS_ACCESS_KEY_ID")) key)
      | inl no_key ↦ elim (Bool-cases (str_eq (m.getenv (codes "AWS_PROFILE")) [])) [
        | inr profile ↦ inr (inl (is_set (m.getenv (codes "AWS_PROFILE")) profile))
        | inl no_profile ↦ elim (Bool-cases (str_eq (m.getenv (codes "AWS_ROLE_ARN")) [])) [
          | inr role ↦ inr (inr (inl (is_set (m.getenv (codes "AWS_ROLE_ARN")) role)))
          | inl no_role ↦ elim (Option-cases m.home) [
            | inl homeless ↦ absurd (ground (arith, no_key, no_profile, no_role, homeless, h))
            | inr (exists, home) ↦ elim (Bool-cases (exists (codes "credentials"))) [
              | inl file ↦ inr (inr (inr (exists, home, inl file)))
              | inr no_file ↦ inr (
                  inr (
                    inr (
                      exists,
                      home,
                      inr (ground (arith, no_key, no_profile, no_role, home, no_file, h)),
                    )))
            ]
          ]
        ]
      ]
    ]

HasCredentials-credentials_present : (m : Machine) → HasCredentials m → credentials_present m ≡ true
unfolding credentials_present
HasCredentials-credentials_present m (inl key) =
    ground (arith, is_unset (m.getenv (codes "AWS_ACCESS_KEY_ID")) key)
HasCredentials-credentials_present m (inr (inl profile)) =
    ground (arith, is_unset (m.getenv (codes "AWS_PROFILE")) profile)
HasCredentials-credentials_present m (inr (inr (inl role))) =
    ground (arith, is_unset (m.getenv (codes "AWS_ROLE_ARN")) role)
HasCredentials-credentials_present m (inr (inr (inr (exists, home, inl file)))) =
    ground (arith, home, file)
HasCredentials-credentials_present m (inr (inr (inr (exists, home, inr file)))) =
    ground (arith, home, file)

-- The output is there, and so are Pulumi, a state that agrees or is forced, and the credentials that are asked for; the
-- warnings are that of a missing uv and those of the state.
pub record IsReady (m : Machine) (i : PreflightInput) (ws : List Warning) : Type 0 where
  compiled : (m.is_dir ≡ true) × (m.has_index ≡ true)
  pulumi : m.has_pulumi ≡ true
  credentials : i.require_credentials ≡ true → HasCredentials m
  warnings :
      (vs : List Warning) × IsDeployable i m.state vs
      × (ws ≡ (if m.has_uv then [] else no_uv ∷ []) ++ vs)

preflight-IsReady :
    (m : Machine) (i : PreflightInput) (ws : List Warning)
    → preflight m i ≡ (ws, none)
    → IsReady m i ws
unfolding preflight
preflight-IsReady m i ws h = elim (Judged-cases (judge m.state i)) [
  | inl (r, e) ↦ absurd (ground (arith, e, h))
  | inr (vs, e) ↦ record {
    compiled = (ground (arith, e, h), ground (arith, e, h));
    pulumi = ground (arith, e, h);
    credentials = λ r. credentials_present-HasCredentials m (ground (arith, e, h, r));
    warnings = (vs, judge-IsDeployable m.state i vs e, ground (arith, e, h));
  }
]
  where
    Judged-cases :
        (j : Judged) → ((r : Refusal) × (j ≡ refuses r)) ⊎ ((vs : List Warning) × (j ≡ goes_on vs))
    Judged-cases (refuses r) = inl (r, refl)
    Judged-cases (goes_on vs) = inr (vs, refl)

IsReady-preflight :
    (m : Machine) (i : PreflightInput) (ws : List Warning)
    → IsReady m i ws
    → preflight m i ≡ (ws, none)
unfolding preflight
IsReady-preflight m i ws r =
    let (vs, d, e) = r.warnings in
    let j = IsDeployable-judge m.state i vs d in
    elim (Bool-cases i.require_credentials) [
      | inl asked ↦ ground (
        arith,
        r.compiled.0,
        r.compiled.1,
        r.pulumi,
        HasCredentials-credentials_present m (r.credentials asked),
        asked,
        j,
        e,
      )
      | inr unasked ↦ ground (arith, r.compiled.0, r.compiled.1, r.pulumi, unasked, j, e)
    ]

-- `Preflight` passes exactly if the machine and the output are ready, and then with exactly these warnings: a stale output
-- or one without a state file is deployed only by force, and not without a warning; a state that cannot be read is never
-- deployed; credentials, where they are asked for, are in a variable or a file.
pub preflight_iff :
    (m : Machine) (i : PreflightInput) (ws : List Warning)
    → (preflight m i ≡ (ws, none)) ↔ IsReady m i ws
preflight_iff m i ws = (preflight-IsReady m i ws, IsReady-preflight m i ws)

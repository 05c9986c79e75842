-- ===== src/Loadtest/Peak.antt =====
-- internal/loadtest/strategy.go: a strategy never asks for more than its peak.
use cloudcc.Base.{
  ℕ, ◌+◌, ◌-◌, ◌*◌, ◌/◌, ◌≤◌, ◌<◌, ◌≡◌, refl, ap, ◌∙◌, ◌||◌, some, List, [], ◌∷◌, ltb, leb, arith,
  All, Bool-cases, inl, inr,
}
use native.Mathlib.Nat.{
  div-le_of_le-mul, mul-le-mul_left, mul_comm, le-div_iff_mul-le, div-mul-le_self, mul-div_left,
}
use cloudcc.Loadtest.Strategy.{
  Strategy, steady, ramp, burst, drain, peak, concurrency, ramp_concurrency, stage_at, strategies,
}

-- A ramp goes up, and its stages take time.
abbrev pub IsRising : Strategy → Type 0
IsRising (steady workers time) = Unit {0}
IsRising (ramp from to stages per_stage) = (from ≤ to) × (1 ≤ per_stage)
IsRising (burst workers quiet spike settle) = Unit {0}
IsRising (drain workers load) = Unit {0}

stage_bound :
    (stages per_stage elapsed : ℕ) → 1 < stages → stage_at stages per_stage elapsed ≤ stages - 1
stage_bound stages per_stage elapsed h = ground arith

share_bound : (span stage last : ℕ) → stage ≤ last → span * stage / last ≤ span
share_bound span stage last h =
    div-le_of_le-mul last (omega (arith, mul-le-mul_left span h, mul_comm last span))

ramp_bound :
    (from to stages per_stage elapsed : ℕ)
    → from ≤ to
    → 1 < stages
    → ramp_concurrency from to stages per_stage elapsed ≤ to
unfolding ramp_concurrency
ramp_bound from to stages per_stage elapsed up h =
    let stage = stage_at stages per_stage elapsed in
    ground
      (arith, share_bound (to - from) stage (stages - 1) (stage_bound stages per_stage elapsed h))

-- At every moment a strategy whose ramp goes up asks for some number of sessions, and it is at most the peak.
pub concurrency-le-peak :
    (s : Strategy) (elapsed : ℕ)
    → IsRising s
    → (c : ℕ) × (concurrency s elapsed ≡ some c) × (c ≤ peak s)
unfolding concurrency
concurrency-le-peak (steady workers time) elapsed h = (workers, refl, omega arith)
concurrency-le-peak (ramp from to stages per_stage) elapsed h = elim (Bool-cases (leb stages 1)) [
  | inl single ↦ (to, ground arith, omega arith)
  | inr several ↦ (
    ramp_concurrency from to stages per_stage elapsed,
    ground arith,
    ramp_bound from to stages per_stage elapsed h.0 (ground arith),
  )
]
concurrency-le-peak (burst workers quiet spike settle) elapsed h =
    elim (Bool-cases (ltb elapsed quiet || leb (quiet + spike) elapsed)) [
      | inl idle ↦ (0, ground arith, omega arith)
      | inr busy ↦ (workers, ground arith, omega arith)
    ]
concurrency-le-peak (drain workers load) elapsed h = elim (Bool-cases (leb load elapsed)) [
  | inl over ↦ (0, ground arith, omega arith)
  | inr busy ↦ (workers, ground arith, omega arith)
]

div_mono : (x y k : ℕ) → 1 ≤ k → x ≤ y → x / k ≤ y / k
div_mono x y k p h =
    (le-div_iff_mul-le {k = k} {x = x / k} {y = y} (omega arith)).1
      (omega (arith, div-mul-le_self x k))

stage_mono :
    (stages per_stage a b : ℕ)
    → 1 ≤ per_stage
    → a ≤ b
    → stage_at stages per_stage a ≤ stage_at stages per_stage b
stage_mono stages per_stage a b p h = ground (arith, div_mono a b per_stage p h)

-- A ramp that goes up asks for no less later than it did before, and from its last stage on for its peak.
pub ramp_concurrency_mono :
    (from to stages per_stage a b : ℕ)
    → from ≤ to
    → 1 < stages
    → 1 ≤ per_stage
    → a ≤ b
    → (ramp_concurrency from to stages per_stage a ≤ ramp_concurrency from to stages per_stage b)
      × (per_stage * (stages - 1) ≤ b → ramp_concurrency from to stages per_stage b ≡ to)
unfolding ramp_concurrency
ramp_concurrency_mono from to stages per_stage a b up many long later =
    let s = stage_at stages per_stage a in
    let t = stage_at stages per_stage b in
    let shares =
      div_mono ((to - from) * s) ((to - from) * t) (stages - 1) (omega arith)
        (mul-le-mul_left (to - from) (stage_mono stages per_stage a b long later)) in
    (
      ground (arith, shares),
      λ late.
          let reached =
            (le-div_iff_mul-le {k = per_stage} {x = stages - 1} {y = b} (omega arith)).1
              (omega (arith, mul_comm per_stage (stages - 1))) in
          let last : t ≡ stages - 1 = ground (arith, reached) in
          let whole : (to - from) * t / (stages - 1) ≡ to - from =
            (ap (λ x. (to - from) * x / (stages - 1)) last
              ∙ mul-div_left (to - from) (omega arith)) in
          ground (arith, whole),
    )

strategies-IsRising :
    (scaled : ℕ → ℕ) → ((a b : ℕ) → a ≤ b → scaled a ≤ scaled b) → All IsRising (strategies scaled)
unfolding strategies
strategies-IsRising scaled up = (tt, ((ground (arith, up 1 24), ground arith), (tt, (tt, tt))))

All-concurrency :
    (ss : List Strategy) (elapsed : ℕ)
    → All IsRising ss
    → All (λ s. (c : ℕ) × (concurrency s elapsed ≡ some c) × (c ≤ peak s)) ss
All-concurrency [] elapsed h = tt
All-concurrency (s ∷ ss) elapsed h =
    (concurrency-le-peak s elapsed h.0, All-concurrency ss elapsed h.1)

-- At every scale, each strategy asks at every moment for some number of sessions, at most its peak. The scale need
-- only keep the order of the numbers.
pub strategies-le-peak :
    (scaled : ℕ → ℕ) (elapsed : ℕ)
    → ((a b : ℕ) → a ≤ b → scaled a ≤ scaled b)
    → All (λ s. (c : ℕ) × (concurrency s elapsed ≡ some c) × (c ≤ peak s)) (strategies scaled)
strategies-le-peak scaled elapsed up =
    All-concurrency (strategies scaled) elapsed (strategies-IsRising scaled up)

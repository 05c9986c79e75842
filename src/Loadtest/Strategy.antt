-- ===== src/Loadtest/Strategy.antt =====
-- internal/loadtest/strategy.go: how much load a strategy asks for at a time. Times are nanoseconds. Numbers of
-- sessions, stages and times are not negative. The product of a number and the scale, a float cut to an
-- integer, is the parameter `scaled`, one function for all numbers of sessions; a scale so large that the cut to an integer
-- overflows is not modelled.
use cloudcc.Base.{
  ℕ, ◌+◌, ◌-◌, ◌*◌, ◌/◌, ◌||◌, Option, none, some, List, [], ◌∷◌, Text, codes, str_eq, ltb, leb,
  ◌==◌, if◌then◌else◌, map, sort_strings,
}

pub data Strategy : Type 0 where
  steady : (workers time : ℕ) → Strategy
  ramp : (from to stages per_stage : ℕ) → Strategy
  burst : (workers quiet spike settle : ℕ) → Strategy
  drain : (workers load : ℕ) → Strategy

abbrev pub strategy_name : Strategy → Text
strategy_name (steady workers time) = codes "steady"
strategy_name (ramp from to stages per_stage) = codes "ramp"
strategy_name (burst workers quiet spike settle) = codes "burst"
strategy_name (drain workers load) = codes "drain"

abbrev pub duration : Strategy → ℕ
duration (steady workers time) = time
duration (ramp from to stages per_stage) = per_stage * stages
duration (burst workers quiet spike settle) = quiet + spike + settle
duration (drain workers load) = load

abbrev pub peak : Strategy → ℕ
peak (steady workers time) = workers
peak (ramp from to stages per_stage) = to
peak (burst workers quiet spike settle) = workers
peak (drain workers load) = workers

-- The stage of a ramp, the last one from the end on.
abbrev pub stage_at : ℕ → ℕ → ℕ → ℕ
stage_at stages per_stage elapsed =
    let stage = elapsed / per_stage in if leb stages stage then stages - 1 else stage

-- `from + span*stage/(stages-1)`, where a span below zero is divided towards zero.
unfoldable pub ramp_concurrency : (from to stages per_stage elapsed : ℕ) → ℕ
ramp_concurrency from to stages per_stage elapsed =
    let stage = stage_at stages per_stage elapsed in
    if leb from to
    then from + (to - from) * stage / (stages - 1)
    else from - (from - to) * stage / (stages - 1)

-- The sessions in flight. `none` is the panic of a division by a stage that takes no time.
unfoldable pub concurrency : Strategy → ℕ → Option ℕ
concurrency (steady workers time) elapsed = some workers
concurrency (ramp from to stages per_stage) elapsed =
    if leb stages 1
    then some to
    else if per_stage == 0
    then none
    else some (ramp_concurrency from to stages per_stage elapsed)
concurrency (burst workers quiet spike settle) elapsed =
    if ltb elapsed quiet || leb (quiet + spike) elapsed then some 0 else some workers
concurrency (drain workers load) elapsed = if leb load elapsed then some 0 else some workers

abbrev pub second : ℕ
second = 1000000000

-- The functions `n` and `d` of `Strategies`.
abbrev pub at_least : ℕ → ℕ → ℕ
at_least low out = if ltb out low then low else out

unfoldable pub strategies : (ℕ → ℕ) → List Strategy
strategies scaled =
    let n = λ (base : ℕ). at_least 1 (scaled base) in
    let d = λ (base : ℕ). at_least second (scaled base) in
    steady (n 8) (d (10 * second))
    ∷ ramp (n 1) (n 24) 6 (d (3 * second))
    ∷ burst (n 24) (d (2 * second)) (d (5 * second)) (d (2 * second))
    ∷ drain (n 6) (d (5 * second))
    ∷ []

abbrev pub find_strategy : Text → List Strategy → Option Strategy
find_strategy name [] = none
find_strategy name (s ∷ ss) =
    let rest = find_strategy name ss in if str_eq (strategy_name s) name then some s else rest

-- The error names the strategies that there are.
pub data Lookup : Type 0 where
  found : Strategy → Lookup
  unknown : Text → List Text → Lookup

unfoldable pub strategy_by_name : (ℕ → ℕ) → Text → Lookup
unfolding strategies sort_strings
strategy_by_name scaled name = elim (find_strategy name (strategies scaled)) [
  | some s ↦ found s
  | none ↦ unknown name (sort_strings (map strategy_name (strategies scaled)))
]

-- `TotalDuration` of report.go.
unfoldable pub total_duration : List Strategy → ℕ
total_duration [] = 0
total_duration (s ∷ ss) = duration s + total_duration ss

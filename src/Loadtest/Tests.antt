-- ===== src/Loadtest/Tests.antt =====
-- internal/loadtest on the strategies at their own scale.
use cloudcc.Base.{
  ℕ, ◌*◌, ◌≤◌, ◌≡◌, refl, some, List, [], ◌∷◌, codes, str_eq, arith, All, ◌-◌, sort_strings, str_lt,
  ltb, false, String, ◌/◌, fetch, put,
}
use cloudcc.Loadtest.Strategy.{
  Strategy, ramp, drain, peak, concurrency, ramp_concurrency, strategies, second, strategy_by_name,
  found, unknown, total_duration,
}
use cloudcc.Loadtest.Report.{Summary, compare, index_runs, pair_runs, sort_deltas, remove}
use cloudcc.Loadtest.Compared.{IsCompared, compare-IsCompared}
use cloudcc.Loadtest.Peak.{strategies-le-peak, ramp_concurrency_mono, concurrency-le-peak}

abbrev climb : Strategy
climb = ramp 1 24 6 (3 * second)

concurrency-start : concurrency climb 0 ≡ some 1
unfolding concurrency ramp_concurrency
concurrency-start = refl

concurrency-middle : concurrency climb (7 * second) ≡ some 10
unfolding concurrency ramp_concurrency
concurrency-middle = refl

drain_found : strategy_by_name (λ n. n) (codes "drain") ≡ found (drain 6 (5 * second))
unfolding strategy_by_name strategies str_eq
drain_found = refl

none_found :
    strategy_by_name (λ n. n) (codes "surge")
    ≡ unknown (codes "surge") (codes "burst" ∷ codes "drain" ∷ codes "ramp" ∷ codes "steady" ∷ [])
unfolding strategy_by_name strategies str_eq sort_strings str_lt
none_found = refl

all_together : total_duration (strategies (λ n. n)) ≡ 42 * second
unfolding total_duration strategies
all_together = refl

strategies-le-peak_example :
    All
      (λ s. (c : ℕ) × (concurrency s (7 * second) ≡ some c) × (c ≤ peak s))
      (strategies (λ n. 2 * n))
strategies-le-peak_example = strategies-le-peak (λ n. 2 * n) (7 * second) (λ a b h. omega arith)

concurrency-le-peak_example : (c : ℕ) × (concurrency climb (7 * second) ≡ some c) × (c ≤ 24)
concurrency-le-peak_example = concurrency-le-peak climb (7 * second) (omega arith, omega arith)

ramp_concurrency_mono_example :
    (ramp_concurrency 1 24 6 (3 * second) (7 * second)
      ≤ ramp_concurrency 1 24 6 (3 * second) (16 * second))
    × (3 * second * (6 - 1) ≤ 16 * second → ramp_concurrency 1 24 6 (3 * second) (16 * second) ≡ 24)
ramp_concurrency_mono_example =
    ramp_concurrency_mono 1 24 6 (3 * second) (7 * second) (16 * second) (omega arith) (omega arith)
      (omega arith) (omega arith)

-- Rates are numbers here.
abbrev run : String → ℕ → Summary ℕ
run name rate = record {
  strategy = codes name;
  describes = [];
  requests = 100;
  duration = codes "1s";
  throughput = rate;
  p50 = codes "1ms";
  p90 = codes "5ms";
  p99 = codes "9ms";
  max = codes "9ms";
  by_status = [];
  failures = [];
  ok_rate = 1;
  routes_hit = 3;
  routes_total = 3;
  low_sample = false;
}

abbrev before : List (Summary ℕ)
before = run "steady" 4 ∷ run "ramp" 2 ∷ []

abbrev after : List (Summary ℕ)
after = run "burst" 3 ∷ run "steady" 8 ∷ []

missing_runs :
    (compare 0 (ltb 0) (λ a b. a / b) before after).1
    ≡ (codes "burst ran only after" ∷ codes "ramp ran only before" ∷ [])
unfolding compare index_runs pair_runs sort_deltas sort_strings str_lt str_eq fetch put remove
missing_runs = refl

compare-IsCompared_example :
    let c = compare 0 (ltb 0) (λ a b. a / b) before after in IsCompared before after c.0 c.1
compare-IsCompared_example = compare-IsCompared 0 (ltb 0) (λ a b. a / b) before after

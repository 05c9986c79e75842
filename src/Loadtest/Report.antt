-- ===== src/Loadtest/Report.antt =====
-- internal/loadtest/report.go: how two reports are compared, and which edges are dead. Rates are floats: their type, the
-- test `> 0` and the quotient are parameters.
use cloudcc.Base.{
  ℕ, Bool, false, ◌||◌, none, some, List, [], ◌∷◌, ◌++◌, Text, codes, str_eq, str_lt, if◌then◌else◌,
  put, fetch, dict_keys, keep_if, map, sort_strings,
}

abbrev pub state_carried : Text
state_carried = codes "carried"

abbrev pub state_dead : Text
state_dead = codes "dead"

abbrev pub state_unverified : Text
state_unverified = codes "unverified"

pub record Observation : Type 0 where
  pub edge : Text
  pub kind : Text
  pub observed : ℕ
  pub state : Text
  pub ok : Bool
  pub why : Text

unfoldable pub dead_edges : List Observation → List Observation
dead_edges connected = keep_if (λ o. str_eq o.state state_dead) connected

unfoldable pub unverified_edges : List Observation → List Observation
unverified_edges connected = keep_if (λ o. str_eq o.state state_unverified) connected

-- The summary of a run. Counts are not negative; a map of counts is an association list.
pub record Summary (F : Type 0) : Type 0 where
  pub strategy : Text
  pub describes : Text
  pub requests : ℕ
  pub duration : Text
  pub throughput : F
  pub p50 : Text
  pub p90 : Text
  pub p99 : Text
  pub max : Text
  pub by_status : List (Text × ℕ)
  pub failures : List (Text × ℕ)
  pub ok_rate : F
  pub routes_hit : ℕ
  pub routes_total : ℕ
  pub low_sample : Bool

pub record Delta (F : Type 0) : Type 0 where
  pub strategy : Text
  pub throughput_before : F
  pub throughput_after : F
  pub ratio : F
  pub p50_before : Text
  pub p50_after : Text
  pub p99_before : Text
  pub p99_after : Text
  pub ok_before : F
  pub ok_after : F
  pub low_sample : Bool

module _ {F : Type 0} where
  unfoldable pub any_low_sample : List (Delta F) → Bool
  any_low_sample [] = false
  any_low_sample (d ∷ deltas) = d.low_sample || any_low_sample deltas

  -- `byName`: a later run of a strategy replaces an earlier one.
  unfoldable pub index_runs : List (Summary F) → List (Text × Summary F) → List (Text × Summary F)
  unfolding put
  index_runs [] m = m
  index_runs (run ∷ runs) m = index_runs runs (put run.strategy run m)

  -- `delete(byName, name)`.
  unfoldable pub remove : Text → List (Text × Summary F) → List (Text × Summary F)
  remove name [] = []
  remove name ((k, run) ∷ m) =
      let rest = remove name m in if str_eq k name then rest else (k, run) ∷ rest

  -- The sort by strategy.
  unfoldable pub place : Delta F → List (Delta F) → List (Delta F)
  place d [] = d ∷ []
  place d (e ∷ sorted) =
      let rest = place d sorted in if str_lt e.strategy d.strategy then e ∷ rest else d ∷ e ∷ sorted

  unfoldable pub sort_deltas : List (Delta F) → List (Delta F)
  unfolding place
  sort_deltas [] = []
  sort_deltas (d ∷ ds) = place d (sort_deltas ds)

  module _ (zero_rate : F) (is_above_zero : F → Bool) (quotient : F → F → F) where
    abbrev pub delta : Summary F → Summary F → Delta F
    delta prior run = record {
      strategy = run.strategy;
      throughput_before = prior.throughput;
      throughput_after = run.throughput;
      ratio =
          if is_above_zero prior.throughput
          then quotient run.throughput prior.throughput
          else zero_rate;
      p50_before = prior.p50;
      p50_after = run.p50;
      p99_before = prior.p99;
      p99_after = run.p99;
      ok_before = prior.ok_rate;
      ok_after = run.ok_rate;
      low_sample = prior.low_sample || run.low_sample;
    }

    -- The second loop: the deltas, what ran only after, and what is left of the first report.
    unfoldable pub pair_runs :
        List (Summary F)
        → List (Text × Summary F)
        → List (Delta F) × List Text × List (Text × Summary F)
    unfolding fetch remove
    pair_runs [] by_name = ([], [], by_name)
    pair_runs (run ∷ runs) by_name = elim (fetch run.strategy by_name) [
      | none ↦
          let (deltas, missing, left) = pair_runs runs by_name in
          (deltas, (run.strategy ++ codes " ran only after") ∷ missing, left)
      | some prior ↦
          let (deltas, missing, left) = pair_runs runs (remove run.strategy by_name) in
          (delta prior run ∷ deltas, missing, left)
    ]

    unfoldable pub compare : List (Summary F) → List (Summary F) → List (Delta F) × List Text
    unfolding index_runs pair_runs sort_deltas sort_strings
    compare before after =
        let (deltas, missing, left) = pair_runs after (index_runs before []) in
        (
          sort_deltas deltas,
          sort_strings (missing ++ map (λ name. name ++ codes " ran only before") (dict_keys left)),
        )

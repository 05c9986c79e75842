-- ===== src/Loadtest/Compared.antt =====
-- internal/loadtest/report.go: which strategies a comparison is about.
use cloudcc.Base.{
  ◌≡◌, refl, sym, ap, subst, ◌∙◌, Bool, true, false, not, ◌||◌, ◌&&◌, Option, none, some, List, [],
  ◌∷◌, ◌++◌, Text, codes, str_eq, str_eq_iff, elem, elem-append, elem-sort_strings, put, fetch,
  elem-put, fetch-none, fetch-ne-none, dict_keys, map, arith, Option-cases, inl, inr,
}
use cloudcc.Loadtest.Report.{
  Summary, Delta, delta, index_runs, remove, place, sort_deltas, pair_runs, compare,
}

str_eq-append : (k n suffix : Text) → str_eq k n ≡ true → str_eq (k ++ suffix) (n ++ suffix) ≡ true
str_eq-append k n suffix h =
    let same : k ≡ n = (str_eq_iff k n).0 h in
    (str_eq_iff (k ++ suffix) (n ++ suffix)).1 (ap (λ t. t ++ suffix) same)

elem-map_suffix :
    (k suffix : Text) (names : List Text)
    → elem k names ≡ true
    → elem (k ++ suffix) (map (λ name. name ++ suffix) names) ≡ true
unfolding elem
elem-map_suffix k suffix [] h = cc
elem-map_suffix k suffix (n ∷ names) h =
    ground (arith, str_eq-append k n suffix, elem-map_suffix k suffix names)

module _ {F : Type 0} where
  abbrev pub run_names : List (Summary F) → List Text
  run_names runs = map (λ run. run.strategy) runs

  abbrev pub delta_names : List (Delta F) → List Text
  delta_names deltas = map (λ d. d.strategy) deltas

  elem-index_runs :
      (k : Text) (runs : List (Summary F)) (m : List (Text × Summary F))
      → elem k (dict_keys (index_runs runs m)) ≡ (elem k (run_names runs) || elem k (dict_keys m))
  unfolding index_runs elem
  elem-index_runs k [] m = refl
  elem-index_runs k (run ∷ runs) m =
      ground (arith, elem-index_runs k runs (put run.strategy run m), elem-put k run.strategy run m)

  elem-remove :
      (k name : Text) (m : List (Text × Summary F))
      → elem k (dict_keys (remove name m)) ≡ (elem k (dict_keys m) && not (str_eq k name))
  unfolding remove elem
  elem-remove k name [] = refl
  elem-remove k name ((j, run) ∷ m) =
      ground (arith, elem-remove k name m, str_eq_iff j name, str_eq_iff k j, str_eq_iff k name)

  elem-place :
      (k : Text) (d : Delta F) (ds : List (Delta F))
      → elem k (delta_names (place d ds)) ≡ (str_eq k d.strategy || elem k (delta_names ds))
  unfolding place elem
  elem-place k d [] = refl
  elem-place k d (e ∷ ds) = ground (arith, elem-place k d ds)

  elem-sort_deltas :
      (k : Text) (ds : List (Delta F))
      → elem k (delta_names (sort_deltas ds)) ≡ elem k (delta_names ds)
  unfolding sort_deltas elem
  elem-sort_deltas k [] = refl
  elem-sort_deltas k (d ∷ ds) =
      ground (arith, elem-place k d (sort_deltas ds), elem-sort_deltas k ds)

  -- What the second loop answers, by the names of the strategies.
  record IsPaired (runs : List (Summary F)) (m : List (Text × Summary F)) (deltas : List (Delta F))
      (missing : List Text) (left : List (Text × Summary F)) : Type 0 where
    both :
        (k : Text) → elem k (delta_names deltas) ≡ (elem k (run_names runs) && elem k (dict_keys m))
    only_before :
        (k : Text)
        → elem k (dict_keys left) ≡ (elem k (dict_keys m) && not (elem k (run_names runs)))
    only_after :
        (k : Text)
        → elem k (run_names runs) ≡ true
        → elem k (dict_keys m) ≡ false
        → elem (k ++ codes " ran only after") missing ≡ true

  -- A comparison has a line for exactly the strategies that both reports ran, and tells of every other one that it ran
  -- only before or only after.
  pub record IsCompared (before after : List (Summary F)) (deltas : List (Delta F))
      (missing : List Text) : Type 0 where
    pub compared :
        (k : Text)
        → elem k (delta_names deltas) ≡ (elem k (run_names before) && elem k (run_names after))
    pub gone :
        (k : Text)
        → (elem k (run_names before) && not (elem k (run_names after))) ≡ true
        → elem (k ++ codes " ran only before") missing ≡ true
    pub fresh :
        (k : Text)
        → (elem k (run_names after) && not (elem k (run_names before))) ≡ true
        → elem (k ++ codes " ran only after") missing ≡ true

  module _ (zero_rate : F) (is_above_zero : F → Bool) (quotient : F → F → F) where
    abbrev paired :
        List (Summary F)
        → List (Text × Summary F)
        → List (Delta F) × List Text × List (Text × Summary F)
    paired runs m = pair_runs zero_rate is_above_zero quotient runs m

    IsPaired-new :
        (run : Summary F) (runs : List (Summary F)) (m : List (Text × Summary F))
        (deltas : List (Delta F)) (missing : List Text) (left : List (Text × Summary F))
        → fetch run.strategy m ≡ none
        → IsPaired runs m deltas missing left
        → IsPaired (run ∷ runs) m deltas ((run.strategy ++ codes " ran only after") ∷ missing) left
    unfolding elem
    IsPaired-new run runs m deltas missing left e h =
        let new : elem run.strategy (dict_keys m) ≡ false =
          ground (arith, fetch-ne-none run.strategy m, e) in
        record {
          both = λ k. ground (arith, h.both k, str_eq_iff k run.strategy, new);
          only_before = λ k. ground (arith, h.only_before k, str_eq_iff k run.strategy, new);
          only_after = λ k a b.
              ground (
                arith,
                h.only_after k,
                str_eq-append k run.strategy (codes " ran only after"),
                a,
                b,
              );
        }

    IsPaired-old :
        (run prior : Summary F) (runs : List (Summary F)) (m : List (Text × Summary F))
        (deltas : List (Delta F)) (missing : List Text) (left : List (Text × Summary F))
        → fetch run.strategy m ≡ some prior
        → IsPaired runs (remove run.strategy m) deltas missing left
        → IsPaired
            (run ∷ runs)
            m
            (delta zero_rate is_above_zero quotient prior run ∷ deltas)
            missing
            left
    unfolding elem
    IsPaired-old run prior runs m deltas missing left e h =
        let old : elem run.strategy (dict_keys m) ≡ true =
          ground (arith, fetch-none run.strategy m, e) in
        record {
          both = λ k.
              ground
                (arith, h.both k, str_eq_iff k run.strategy, old, elem-remove k run.strategy m);
          only_before = λ k. ground (
            arith,
            h.only_before k,
            str_eq_iff k run.strategy,
            old,
            elem-remove k run.strategy m,
          );
          only_after = λ k a b.
              ground (
                arith,
                h.only_after k,
                str_eq_iff k run.strategy,
                old,
                elem-remove k run.strategy m,
              );
        }

    -- One round, after the lookup of the strategy.
    abbrev answer :
        Summary F
        → List (Summary F)
        → List (Text × Summary F)
        → Option (Summary F)
        → List (Delta F) × List Text × List (Text × Summary F)
    answer run runs m none =
        let (deltas, missing, left) = paired runs m in
        (deltas, (run.strategy ++ codes " ran only after") ∷ missing, left)
    answer run runs m (some prior) =
        let (deltas, missing, left) = paired runs (remove run.strategy m) in
        (delta zero_rate is_above_zero quotient prior run ∷ deltas, missing, left)

    abbrev IsAnswer :
        Summary F → List (Summary F) → List (Text × Summary F) → Option (Summary F) → Type 0
    IsAnswer run runs m o = let a = answer run runs m o in IsPaired (run ∷ runs) m (a.0) (a.1) (a.2)

    pair_runs_lem :
        (runs : List (Summary F)) (m : List (Text × Summary F))
        → IsPaired runs m ((paired runs m).0) ((paired runs m).1) ((paired runs m).2)
    unfolding pair_runs
    pair_runs_lem [] m = record {
      both = λ k. unfold elem in refl;
      only_before = λ k. unfold elem in ground arith;
      only_after = λ k a b. unfold elem in ground arith;
    }
    pair_runs_lem (run ∷ runs) m = elim (Option-cases (fetch run.strategy m)) [
      | inl e ↦
          subst (IsAnswer run runs m) (sym e)
            (IsPaired-new run runs m _ _ _ e (pair_runs_lem runs m))
      | inr (prior, e) ↦
          subst (IsAnswer run runs m) (sym e)
            (IsPaired-old run prior runs m _ _ _ e (pair_runs_lem runs (remove run.strategy m)))
    ]

    -- `Compare` has a line for exactly the strategies that both reports ran, and tells of every other one that it ran only
    -- before, or only after.
    pub compare-IsCompared :
        (before after : List (Summary F))
        → let c = compare zero_rate is_above_zero quotient before after in
          IsCompared before after c.0 c.1
    unfolding compare
    compare-IsCompared before after =
        let m = index_runs before [] in
        let p = pair_runs_lem after m in
        let (deltas, missing, left) = paired after m in
        let indexed : (k : Text) → elem k (dict_keys m) ≡ elem k (run_names before) =
          (λ k. elem-index_runs k before [] ∙ unfold elem in ground arith) in
        let tail = map (λ name. name ++ codes " ran only before") (dict_keys left) in
        let listed =
          λ (t : Text). elem-sort_strings t (missing ++ tail) ∙ elem-append t missing tail in
        record {
          compared = λ k. ground (arith, elem-sort_deltas k deltas, p.both k, indexed k);
          gone = λ k h. ground (
            arith,
            listed (k ++ codes " ran only before"),
            p.only_before k,
            indexed k,
            elem-map_suffix k (codes " ran only before") (dict_keys left),
          );
          fresh = λ k h.
              ground (arith, listed (k ++ codes " ran only after"), p.only_after k, indexed k);
        }

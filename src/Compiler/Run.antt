-- ===== src/Compiler/Run.antt =====
-- internal/compiler/compiler.go: what `Compile` does with a schedule.
use cloudcc.Base.{
  ◌≡◌, refl, Option, none, some, List, [], ◌∷◌, ◌++◌, arith, Text, ◌∙◌, sym, subst, append_assoc,
  append-nil, ap,
}
use cloudcc.Compiler.Defs.{Plugin, Compiler, Outcome, finished, aborted, run, compile}
use cloudcc.Compiler.Register.{names}

-- The plugins transform the first context into the second, in this order and without an error.
pub data Transforms {C : Type 0} : List (Plugin C) → C → C → Type 0 where
  done : {ctx : C} → Transforms [] ctx ctx
  next :
      {p : Plugin C} {ps : List (Plugin C)} {ctx mid end : C}
      → p.transform ctx ≡ (none, mid)
      → Transforms ps mid end
      → Transforms (p ∷ ps) ctx end

-- The plugin that stopped a run.
pub record Stops {C : Type 0} (ps : List (Plugin C)) (ctx : C) (failed error : Text) (end : C)
    (trace : List Text) : Type 0 where
  pub before : List (Plugin C)
  pub plugin : Plugin C
  pub after : List (Plugin C)
  pub mid : C
  pub split : ps ≡ before ++ plugin ∷ after
  pub ran : Transforms before ctx mid
  pub failure : plugin.transform mid ≡ (some error, end)
  pub called : failed ≡ plugin.name
  pub traced : trace ≡ names before ++ plugin.name ∷ []

abbrev pub OutcomeSays : {C : Type 0} → List (Plugin C) → C → List Text → Outcome C → Type 0
OutcomeSays ps ctx seen (finished end trace) = Transforms ps ctx end × (trace ≡ seen ++ names ps)
OutcomeSays ps ctx seen (aborted failed error end trace) =
    (more : List Text) × (trace ≡ seen ++ more) × Stops ps ctx failed error end more

module _ {C : Type 0} where
  -- A plugin that succeeds in front of a run.
  in_front :
      (p : Plugin C) (ps : List (Plugin C)) (ctx mid : C) (seen : List Text) (o : Outcome C)
      → p.transform ctx ≡ (none, mid)
      → OutcomeSays ps mid (seen ++ p.name ∷ []) o
      → OutcomeSays (p ∷ ps) ctx seen o
  in_front p ps ctx mid seen (finished end trace) e (ran, traced) =
      (next e ran, traced ∙ append_assoc seen (p.name ∷ []) (names ps))
  in_front p ps ctx mid seen (aborted failed error end trace) e (more, traced, s) = (
    p.name ∷ more,
    traced ∙ append_assoc seen (p.name ∷ []) more,
    record {
      before = p ∷ s.before;
      plugin = s.plugin;
      after = s.after;
      mid = s.mid;
      split = ap (λ l. p ∷ l) s.split;
      ran = next e s.ran;
      failure = s.failure;
      called = s.called;
      traced = ap (λ l. p.name ∷ l) s.traced;
    },
  )

  run_cases :
      (p : Plugin C) (ps : List (Plugin C)) (ctx mid : C) (error : Option Text) (seen : List Text)
      → p.transform ctx ≡ (error, mid)
      → ((more : List Text) → OutcomeSays ps mid more (run ps mid more))
      → OutcomeSays (p ∷ ps) ctx seen (run (p ∷ ps) ctx seen)
  unfolding run
  run_cases p ps ctx mid none seen e later =
      let goes_on : run (p ∷ ps) ctx seen ≡ run ps mid (seen ++ p.name ∷ []) = ground arith in
      subst (OutcomeSays (p ∷ ps) ctx seen) (sym goes_on)
        (in_front p ps ctx mid seen _ e (later (seen ++ p.name ∷ [])))
  run_cases p ps ctx mid (some error) seen e later =
      let stops : run (p ∷ ps) ctx seen ≡ aborted p.name error mid (seen ++ p.name ∷ []) =
        ground arith in
      subst (OutcomeSays (p ∷ ps) ctx seen) (sym stops) (
        p.name ∷ [],
        refl,
        record {
          before = [];
          plugin = p;
          after = ps;
          mid = ctx;
          split = refl;
          ran = done;
          failure = e;
          called = refl;
          traced = refl;
        },
      )

  run_says :
      (ps : List (Plugin C)) (ctx : C) (seen : List Text)
      → OutcomeSays ps ctx seen (run ps ctx seen)
  run_says [] ctx seen = unfold run in (done, sym (append-nil seen))
  run_says (p ∷ ps) ctx seen =
      run_cases p ps ctx (p.transform ctx).1 (p.transform ctx).0 seen refl
        (run_says ps (p.transform ctx).1)

  -- `Compile` finishes with the context that all plugins made in the order of the schedule, and then
  -- the trace is that order. Or the first plugin that reports an error ends the run with that error
  -- and its name: the plugins before it ran without error, it was traced, and nothing behind it ran.
  pub compile-Says : (c : Compiler C) (ctx : C) → OutcomeSays c.ordered ctx [] (compile c ctx)
  unfolding compile
  compile-Says c ctx = run_says c.ordered ctx []

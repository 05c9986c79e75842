-- ===== src/Compiler/Tests.antt =====
-- internal/compiler/compiler.go on small plugin lists. The context of the samples is a number.
use cloudcc.Base.{ℕ, ◌+◌, ◌≡◌, refl, some, none, List, [], ◌∷◌, Text, codes, elem, str_eq, str_lt}
use cloudcc.Compiler.Defs.{
  Plugin, ok, err, unknown_plugin, duplicate_plugin, schedule, Compiler, compile, aborted, order,
}
use cloudcc.Compiler.Schedule.{ScheduleSays, schedule-Says}
use cloudcc.Compiler.Run.{OutcomeSays, compile-Says}

abbrev adds : Text → List Text → ℕ → Plugin ℕ
adds name deps n = record { name = name; deps = deps; transform = λ ctx. (none, ctx + n) }

abbrev fails : Text → List Text → Plugin ℕ
fails name deps = record { name = name; deps = deps; transform = λ ctx. (some (codes "no"), ctx) }

abbrev input : Plugin ℕ
input = adds (codes "input") [] 1

abbrev detect : Plugin ℕ
detect = adds (codes "detect") (codes "input" ∷ []) 10

abbrev render : Plugin ℕ
render = fails (codes "render") (codes "detect" ∷ codes "input" ∷ [])

program : Unit {0}
unfolding schedule compile order str_eq str_lt elem
program = tt

schedule_three : schedule (render ∷ detect ∷ input ∷ []) ≡ ok (input ∷ detect ∷ render ∷ [])
unfolding program
schedule_three = refl

schedule_unknown : schedule (detect ∷ []) ≡ err (unknown_plugin (codes "detect") (codes "input"))
unfolding program
schedule_unknown = refl

schedule_twice : schedule (input ∷ detect ∷ input ∷ []) ≡ err (duplicate_plugin (codes "input"))
unfolding program
schedule_twice = refl

schedule-Says_example :
    ScheduleSays (render ∷ detect ∷ input ∷ []) (schedule (render ∷ detect ∷ input ∷ []))
schedule-Says_example = schedule-Says (render ∷ detect ∷ input ∷ [])

abbrev three : Compiler ℕ
three = record { ordered = input ∷ detect ∷ render ∷ [] }

compile-three :
    compile three 0
    ≡ aborted
        (codes "render")
        (codes "no")
        11
        (codes "input" ∷ codes "detect" ∷ codes "render" ∷ [])
unfolding program
compile-three = refl

compile-Says_example : OutcomeSays (input ∷ detect ∷ render ∷ []) 0 [] (compile three 0)
compile-Says_example = compile-Says three 0

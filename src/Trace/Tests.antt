-- ===== src/Trace/Tests.antt =====
-- internal/cli/trace.go on two runs that interleave two stores differently.
use cloudcc.Base.{
  ◌≡◌, ◌↔◌, refl, List, [], ◌∷◌, Text, String, codes, str_eq, str_lt, elem, put, fetch,
  sort_strings,
}
use cloudcc.Trace.Diff.{
  TraceEvent, line, group, group_by_resource, equal_lines, print_lines, unseen, diff_names,
  diff_traces, resource, only_left, only_right,
}
use cloudcc.Trace.Same.{lines_of, diff_traces_iff}

abbrev event : String → String → TraceEvent
event id op = record { id = codes id; kind = []; op = codes op; args = []; ret = []; err = [] }

abbrev first_run : List TraceEvent
first_run = event "pets" "get" ∷ event "carts" "put" ∷ event "pets" "set" ∷ []

abbrev second_run : List TraceEvent
second_run = event "carts" "put" ∷ event "pets" "get" ∷ event "pets" "set" ∷ []

same_work : diff_traces first_run second_run ≡ (0, [])
unfolding diff_traces group_by_resource group diff_names unseen equal_lines line put fetch elem
    str_eq str_lt sort_strings
same_work = refl

other_work : diff_traces first_run (event "pets" "set" ∷ []) ≡ (
  2,
  resource (codes "carts")
      ∷ only_left (codes "put")
      ∷ resource (codes "pets")
      ∷ only_left (codes "get")
      ∷ only_right (codes "set")
      ∷ only_left (codes "set")
      ∷ [],
)
unfolding diff_traces group_by_resource group diff_names unseen equal_lines print_lines line put
    fetch elem str_eq str_lt sort_strings
other_work = refl

diff_traces_iff_example :
    ((diff_traces first_run second_run).0 ≡ 0)
    ↔ ((k : Text) → lines_of k first_run ≡ lines_of k second_run)
diff_traces_iff_example = diff_traces_iff first_run second_run

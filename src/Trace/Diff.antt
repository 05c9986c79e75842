-- ===== src/Trace/Diff.antt =====
-- internal/cli/trace.go: the lines of a trace by resource, and their differences. What is printed is a list of values.
use cloudcc.Base.{
  ℕ, suc, Bool, true, false, ◌&&◌, none, some, List, [], ◌∷◌, ◌++◌, Text, codes, str_eq, elem,
  if◌then◌else◌, put, fetch, dict_keys, sort_strings,
}

pub record TraceEvent : Type 0 where
  pub id : Text
  pub kind : Text
  pub op : Text
  pub args : Text
  pub ret : Text
  pub err : Text

-- A part of a line, left out if it is empty.
abbrev pub part : Text → Text → Text
part name s = if str_eq s [] then [] else name ++ s

unfoldable pub line : TraceEvent → Text
unfolding str_eq
line e =
    e.op ++ part (codes " args=") e.args ++ part (codes " ret=") e.ret ++ part (codes " err=") e.err

-- A missing entry of the map is the nil list.
abbrev pub lines_at : Text → List (Text × List Text) → List Text
lines_at name m = elim (fetch name m) [ none ↦ [] | some ls ↦ ls ]

unfoldable pub group : List TraceEvent → List (Text × List Text) → List (Text × List Text)
unfolding put line fetch
group [] m = m
group (e ∷ es) m = group es (put e.id (lines_at e.id m ++ line e ∷ []) m)

unfoldable pub group_by_resource : List TraceEvent → List Text × List (Text × List Text)
unfolding group sort_strings
group_by_resource events = let m = group events [] in (sort_strings (dict_keys m), m)

unfoldable pub equal_lines : List Text → List Text → Bool
unfolding str_eq
equal_lines [] [] = true
equal_lines [] (r ∷ rs) = false
equal_lines (l ∷ ls) [] = false
equal_lines (l ∷ ls) (r ∷ rs) = str_eq l r && equal_lines ls rs

pub data Printed : Type 0 where
  resource only_left only_right both : Text → Printed

-- The loop over the positions of the longer list.
unfoldable pub print_lines : List Text → List Text → List Printed
unfolding str_eq
print_lines [] [] = []
print_lines [] (r ∷ rs) = only_right r ∷ print_lines [] rs
print_lines (l ∷ ls) [] = only_left l ∷ print_lines ls []
print_lines (l ∷ ls) (r ∷ rs) =
    let rest = print_lines ls rs in
    if str_eq l r then both l ∷ rest else only_left l ∷ only_right r ∷ rest

-- The names that have not been seen.
unfoldable pub unseen : List Text → List Text → List Text
unfolding elem
unseen [] seen = []
unseen (n ∷ ns) seen =
    let old = unseen ns seen in
    let new = unseen ns (n ∷ seen) in if elem n seen then old else n ∷ new

unfoldable pub diff_names :
    List Text → List (Text × List Text) → List (Text × List Text) → ℕ × List Printed
unfolding equal_lines print_lines
diff_names [] by_a by_b = (0, [])
diff_names (name ∷ names) by_a by_b =
    let rest = diff_names names by_a by_b in
    let left = lines_at name by_a in
    let right = lines_at name by_b in
    if equal_lines left right
    then rest
    else (suc rest.0, resource name ∷ print_lines left right ++ rest.1)

unfoldable pub diff_traces : List TraceEvent → List TraceEvent → ℕ × List Printed
unfolding group_by_resource diff_names unseen sort_strings
diff_traces a b =
    let (names_a, by_a) = group_by_resource a in
    let (names_b, by_b) = group_by_resource b in
    diff_names (sort_strings (unseen (names_a ++ names_b) [])) by_a by_b

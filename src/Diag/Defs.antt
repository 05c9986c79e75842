-- ===== src/Diag/Defs.antt =====
-- internal/diag/diag.go: diagnostics and the sink that collects them. `decimal` is a parameter: it is the verb `%d` of
-- Go's library. A message is the text that `fmt.Sprintf` made. Lines and columns are never negative.
use cloudcc.Base.{
  ℕ, suc, Bool, true, false, not, List, [], ◌∷◌, ◌++◌, Text, codes, str_eq, str_lt, elem, ltb, leb,
  ◌==◌, if◌then◌else◌, length,
}

pub data Severity : Type 0 where
  warning error : Severity

abbrev pub severity_string : Severity → Text
severity_string error = codes "error"
severity_string warning = codes "warning"

abbrev pub is_error : Severity → Bool
is_error error = true
is_error warning = false

abbrev pub max_diagnostics : ℕ
max_diagnostics = 50

pub record Position : Type 0 where
  pub file : Text
  pub line : ℕ
  pub col : ℕ

pub record Diagnostic : Type 0 where
  pub severity : Severity
  pub pos : Position
  pub capability : Text
  pub message : Text

-- `seen` is the set of the keys, as a list.
pub record Diagnostics : Type 0 where
  pub items : List Diagnostic
  pub seen : List Text
  pub truncated : Bool
  pub strict : Bool

abbrev pub sink : Bool → Diagnostics
sink strict = record { items = []; seen = []; truncated = false; strict = strict }

-- A part of the message with its colon, if there is one.
abbrev labelled : Text → Text
labelled [] = []
labelled (c ∷ s) = (c ∷ s) ++ codes ": "

unfoldable pub has_errors : List Diagnostic → Bool
has_errors [] = false
has_errors (d ∷ items) = let rest = has_errors items in if is_error d.severity then true else rest

unfoldable pub error_count : List Diagnostic → ℕ
error_count [] = 0
error_count (d ∷ items) =
    let rest = error_count items in if is_error d.severity then suc rest else rest

module _ (decimal : ℕ → Text) where
  unfoldable pub position_string : Position → Text
  position_string p = elim p.file [
    | [] ↦ []
    | c ∷ s ↦
        if p.line == 0
        then c ∷ s
        else (c ∷ s) ++ codes ":" ++ decimal p.line ++ codes ":" ++ decimal p.col
  ]

  unfoldable pub diagnostic_string : Diagnostic → Text
  unfolding position_string
  diagnostic_string d =
      labelled (position_string d.pos)
      ++ labelled (severity_string d.severity)
      ++ labelled d.capability
      ++ d.message

  unfoldable pub add : Diagnostics → Diagnostic → Diagnostics
  add s d =
      let key = diagnostic_string d in
      if elem key s.seen
      then s
      else if leb max_diagnostics (length s.items)
      then record s { truncated = true }
      else record s { seen = key ∷ s.seen; items = s.items ++ d ∷ [] }

  unfoldable pub errorf : Diagnostics → Position → Text → Text → Diagnostics
  unfolding add
  errorf s pos capability message =
      add s (record { severity = error; pos = pos; capability = capability; message = message })

  unfoldable pub warnf : Diagnostics → Position → Text → Text → Diagnostics
  unfolding add
  warnf s pos capability message =
      let severity = if s.strict then error else warning in
      add s (record { severity = severity; pos = pos; capability = capability; message = message })

  -- The order of `Items`.
  unfoldable pub is_before : Diagnostic → Diagnostic → Bool
  is_before a b =
      if not (str_eq a.pos.file b.pos.file)
      then str_lt a.pos.file b.pos.file
      else if not (a.pos.line == b.pos.line)
      then ltb a.pos.line b.pos.line
      else if not (a.pos.col == b.pos.col)
      then ltb a.pos.col b.pos.col
      else str_lt (diagnostic_string a) (diagnostic_string b)

  -- `sort.SliceStable`, which is determined by its order: an item is put in front of the first that is not before it.
  unfoldable pub place : Diagnostic → List Diagnostic → List Diagnostic
  place d [] = d ∷ []
  place d (e ∷ sorted) =
      let rest = place d sorted in if is_before e d then e ∷ rest else d ∷ e ∷ sorted

  unfoldable pub sort_stable : List Diagnostic → List Diagnostic
  unfolding place
  sort_stable [] = []
  sort_stable (d ∷ ds) = place d (sort_stable ds)

  unfoldable pub items : Diagnostics → List Diagnostic
  unfolding sort_stable
  items s = sort_stable s.items

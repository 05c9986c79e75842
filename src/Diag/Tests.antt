-- ===== src/Diag/Tests.antt =====
-- internal/diag/diag.go on sample diagnostics. Numbers are written in unary.
use cloudcc.Base.{ℕ, zero, suc, ◌≡◌, refl, false, List, [], ◌∷◌, Text, codes, elem, str_eq, str_lt}
use cloudcc.Diag.Defs.{
  Diagnostic, Diagnostics, Position, warning, error, sink, add, has_errors, diagnostic_string,
  items, is_before,
}
use cloudcc.Diag.Order.{swap, items-Reordered}
use cloudcc.Diag.Sink.{add_all, Collects, add_all-Collects, sink-IsSink, items-add_all_full}

abbrev unary : ℕ → Text
unary zero = []
unary (suc n) = b'1' ∷ unary n

abbrev at : Text → ℕ → Position
at file line = record { file = file; line = line; col = 1 }

abbrev unused : ℕ → Diagnostic
unused n = record {
  severity = warning;
  pos = at (codes "a.py") n;
  capability = codes "expose";
  message = codes "unused";
}

abbrev broken : Diagnostic
broken = record {
  severity = error;
  pos = at (codes "b.py") 2;
  capability = [];
  message = codes "broken";
}

abbrev warnings : ℕ → List Diagnostic
warnings zero = []
warnings (suc n) = unused (suc n) ∷ warnings n

diag_tests : Unit {0}
unfolding add has_errors diagnostic_string elem str_eq
diag_tests = tt

unused_string : diagnostic_string unary (unused 2) ≡ codes "a.py:11:1: warning: expose: unused"
unfolding diag_tests
unused_string = refl

items_sorted :
    items unary (add_all unary (sink false) (broken ∷ unused 2 ∷ unused 1 ∷ unused 2 ∷ []))
    ≡ (unused 1 ∷ unused 2 ∷ broken ∷ [])
unfolding diag_tests items str_lt is_before
items_sorted = refl

add_all-Collects_example :
    Collects unary
      (sink false)
      (broken ∷ unused 1 ∷ broken ∷ [])
      (add_all unary (sink false) (broken ∷ unused 1 ∷ broken ∷ []))
add_all-Collects_example =
    add_all-Collects unary (sink false) (broken ∷ unused 1 ∷ broken ∷ []) (sink-IsSink unary false)

abbrev full : Diagnostics
full = record (sink false) { items = warnings 50 }

items-add_all_full_example : (add_all unary full (broken ∷ [])).items ≡ full.items
items-add_all_full_example = items-add_all_full unary full (broken ∷ []) refl

abbrev first_order : Diagnostics
first_order = add_all unary (sink false) (broken ∷ unused 1 ∷ [])

abbrev second_order : Diagnostics
second_order = add_all unary (sink false) (unused 1 ∷ broken ∷ [])

items-Reordered_example : items unary first_order ≡ items unary second_order
unfolding diag_tests
items-Reordered_example =
    items-Reordered unary first_order second_order
      (add_all-Collects unary (sink false) (broken ∷ unused 1 ∷ [])
        (sink-IsSink unary false)).is_sink
      (swap broken (unused 1) [])

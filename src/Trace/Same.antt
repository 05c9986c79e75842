-- ===== src/Trace/Same.antt =====
-- internal/cli/trace.go: when two runs count as having done the same work.
use cloudcc.Base.{
  ◌≡◌, ◌↔◌, refl, sym, ap, ◌∙◌, subst, true, false, ◌||◌, List, [], ◌∷◌, ◌++◌, append_assoc,
  append-nil, Text, str_eq, str_eq_iff, elem, elem-append, if◌then◌else◌, put, fetch, fetch-put,
  fetch-none, dict_keys, sort_strings, elem-sort_strings, arith, Bool-cases, inl, inr,
}
use cloudcc.Trace.Diff.{
  TraceEvent, line, lines_at, group, group_by_resource, equal_lines, unseen, diff_names,
  diff_traces,
}

-- The lines of one resource, in the order of its events.
unfoldable pub lines_of : Text → List TraceEvent → List Text
lines_of name [] = []
lines_of name (e ∷ es) =
    let rest = lines_of name es in if str_eq name e.id then line e ∷ rest else rest

lines_at-group :
    (name : Text) (es : List TraceEvent) (m : List (Text × List Text))
    → lines_at name (group es m) ≡ lines_at name m ++ lines_of name es
unfolding group lines_of
lines_at-group name [] m = sym (append-nil (lines_at name m))
lines_at-group name (e ∷ es) m = elim (Bool-cases (str_eq name e.id)) [
  | inr other ↦
      let step = fetch-put name e.id (lines_at e.id m ++ line e ∷ []) m in
      lines_at-group name es (put e.id (lines_at e.id m ++ line e ∷ []) m)
      ∙ ground (arith, step, other)
  | inl same ↦
      let q : name ≡ e.id = ground (arith, same, str_eq_iff name e.id) in
      let step = fetch-put name e.id (lines_at e.id m ++ line e ∷ []) m in
      let now : lines_at name (put e.id (lines_at e.id m ++ line e ∷ []) m)
          ≡ lines_at name m ++ line e ∷ [] =
        ground (arith, step, same, q) in
      lines_at-group name es (put e.id (lines_at e.id m ++ line e ∷ []) m)
      ∙ ap (λ t. t ++ lines_of name es) now
      ∙ append_assoc (lines_at name m) (line e ∷ []) (lines_of name es)
      ∙ ground (arith, same)
]

equal_lines_iff : (ls rs : List Text) → (equal_lines ls rs ≡ true) ↔ (ls ≡ rs)
unfolding equal_lines
equal_lines_iff [] [] = (λ h. refl, λ h. refl)
equal_lines_iff [] (r ∷ rs) = (λ h. absurd (ground (arith, h)), λ h. absurd (ground (arith, h)))
equal_lines_iff (l ∷ ls) [] = (λ h. absurd (ground (arith, h)), λ h. absurd (ground (arith, h)))
equal_lines_iff (l ∷ ls) (r ∷ rs) = (
  λ h. ground (arith, h, str_eq_iff l r, (equal_lines_iff ls rs).0),
  λ h. ground (arith, h, str_eq_iff l r, (equal_lines_iff ls rs).1),
)

elem-unseen :
    (k : Text) (ns seen : List Text)
    → (elem k seen || elem k (unseen ns seen)) ≡ (elem k seen || elem k ns)
unfolding unseen elem
elem-unseen k [] seen = refl
elem-unseen k (n ∷ ns) seen = elim (Bool-cases (elem n seen)) [
  | inl old ↦ ground (arith, old, elem-unseen k ns seen, str_eq_iff k n)
  | inr new ↦ ground (arith, new, elem-unseen k ns (n ∷ seen))
]

diff_names-zero :
    (names : List Text) (by_a by_b : List (Text × List Text)) (k : Text)
    → (diff_names names by_a by_b).0 ≡ 0
    → elem k names ≡ true
    → lines_at k by_a ≡ lines_at k by_b
unfolding diff_names elem
diff_names-zero [] by_a by_b k h i = absurd (ground (arith, i))
diff_names-zero (n ∷ ns) by_a by_b k h i =
    elim (Bool-cases (equal_lines (lines_at n by_a) (lines_at n by_b))) [
      | inr differ ↦ absurd (ground (arith, differ, h))
      | inl same ↦ elim (Bool-cases (str_eq k n)) [
        | inl here ↦
            let q : k ≡ n = ground (arith, here, str_eq_iff k n) in
            subst (λ t. lines_at t by_a ≡ lines_at t by_b) (sym q)
              ((equal_lines_iff (lines_at n by_a) (lines_at n by_b)).0 same)
        | inr there ↦
            diff_names-zero ns by_a by_b k (ground (arith, same, h)) (ground (arith, there, i))
      ]
    ]

zero-diff_names :
    (names : List Text) (by_a by_b : List (Text × List Text))
    → ((k : Text) → lines_at k by_a ≡ lines_at k by_b)
    → (diff_names names by_a by_b).0 ≡ 0
unfolding diff_names
zero-diff_names [] by_a by_b h = refl
zero-diff_names (n ∷ ns) by_a by_b h = ground (
  arith,
  (equal_lines_iff (lines_at n by_a) (lines_at n by_b)).1 (h n),
  zero-diff_names ns by_a by_b h,
)

absent-lines_at :
    (k : Text) (m : List (Text × List Text)) → elem k (dict_keys m) ≡ false → lines_at k m ≡ []
absent-lines_at k m h = rw (lines_at, fetch-none k m h) refl

lines_at-lines_of : (k : Text) (es : List TraceEvent) → lines_at k (group es []) ≡ lines_of k es
unfolding fetch
lines_at-lines_of k es = lines_at-group k es []

-- No resource differs exactly if each has the same lines in the same order in both traces; how the events of different resources
-- interleave does not matter.
pub diff_traces_iff :
    (a b : List TraceEvent) → ((diff_traces a b).0 ≡ 0) ↔ ((k : Text) → lines_of k a ≡ lines_of k b)
unfolding diff_traces group_by_resource elem
diff_traces_iff a b =
    let by_a : List (Text × List Text) = group a [] in
    let by_b : List (Text × List Text) = group b [] in
    let joined : List Text = sort_strings (dict_keys by_a) ++ sort_strings (dict_keys by_b) in
    let names : List Text = sort_strings (unseen joined []) in
    let known : (k : Text) → elem k names ≡ (elem k (dict_keys by_a) || elem k (dict_keys by_b)) =
      λ k.
        elem-sort_strings k (unseen joined [])
        ∙ elem-unseen k joined []
        ∙ elem-append k (sort_strings (dict_keys by_a)) (sort_strings (dict_keys by_b))
        ∙ ground
            (arith, elem-sort_strings k (dict_keys by_a), elem-sort_strings k (dict_keys by_b)) in
    (
      λ h k.
          let same : lines_at k by_a ≡ lines_at k by_b = elim (Bool-cases (elem k names)) [
            | inl i ↦ diff_names-zero names by_a by_b k h i
            | inr o ↦
                absent-lines_at k by_a (ground (arith, known k, o))
                ∙ sym (absent-lines_at k by_b (ground (arith, known k, o)))
          ] in
          sym (lines_at-lines_of k a) ∙ same ∙ lines_at-lines_of k b,
      λ h.
          zero-diff_names names by_a by_b
            (λ k. lines_at-lines_of k a ∙ h k ∙ sym (lines_at-lines_of k b)),
    )

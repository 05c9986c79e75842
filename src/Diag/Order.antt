-- ===== src/Diag/Order.antt =====
-- internal/diag/diag.go: what `Items` answers does not depend on the order in which the diagnostics came.
use cloudcc.Base.{
  ℕ, ◌≡◌, refl, sym, ap, ◌∙◌, Bool, true, false, not, List, [], ◌∷◌, Text, str_eq, str_eq_iff,
  str_lt, str_lt_irrefl, str_lt_trans, str_lt_total, elem, IsDistinct, ltb, ◌==◌, if◌then◌else◌,
  arith,
}
use cloudcc.Diag.Defs.{
  Diagnostic, Diagnostics, diagnostic_string, is_before, place, sort_stable, items,
}
use cloudcc.Diag.Sink.{keys, IsSink}

-- Texts and numbers in lexicographic order.
lex : Text → ℕ → ℕ → Text → Text → ℕ → ℕ → Text → Bool
lex f l c s g m d t =
    if not (str_eq f g)
    then str_lt f g
    else if not (l == m)
    then ltb l m
    else if not (c == d)
    then ltb c d
    else str_lt s t

lex_trans :
    (f g h : Text) (l m n c d e : ℕ) (s t u : Text)
    → lex f l c s g m d t ≡ true
    → lex g m d t h n e u ≡ true
    → lex f l c s h n e u ≡ true
unfolding lex
lex_trans f g h l m n c d e s t u p q = ground (
  arith,
  str_lt_trans f g h,
  str_lt_trans s t u,
  str_eq_iff f g,
  str_eq_iff g h,
  str_eq_iff f h,
  str_lt_irrefl f,
  str_lt_irrefl g,
)

lex_asym :
    (f g : Text) (l m c d : ℕ) (s t : Text)
    → lex f l c s g m d t ≡ true
    → lex g m d t f l c s ≡ false
unfolding lex
lex_asym f g l m c d s t p = ground (
  arith,
  str_lt_trans f g f,
  str_lt_trans s t s,
  str_eq_iff f g,
  str_eq_iff g f,
  str_lt_irrefl f,
  str_lt_irrefl s,
)

lex_total :
    (f g : Text) (l m c d : ℕ) (s t : Text)
    → str_eq s t ≡ false
    → lex f l c s g m d t ≡ false
    → lex g m d t f l c s ≡ true
unfolding lex
lex_total f g l m c d s t n p =
    ground
      (arith, str_lt_total f g, str_lt_total s t, str_eq_iff f g, str_eq_iff g f, str_eq_iff s t)

module _ (decimal : ℕ → Text) where
  abbrev key : Diagnostic → Text
  key d = diagnostic_string decimal d

  is_before-lex :
      (a b : Diagnostic)
      → is_before decimal a b
        ≡ lex a.pos.file a.pos.line a.pos.col (key a) b.pos.file b.pos.line b.pos.col (key b)
  unfolding is_before lex
  is_before-lex a b = refl

  is_before_trans :
      (a b c : Diagnostic)
      → is_before decimal a b ≡ true
      → is_before decimal b c ≡ true
      → is_before decimal a c ≡ true
  is_before_trans a b c p q =
      is_before-lex a c
      ∙ lex_trans a.pos.file b.pos.file c.pos.file a.pos.line b.pos.line c.pos.line a.pos.col
          b.pos.col c.pos.col (key a) (key b) (key c) (sym (is_before-lex a b) ∙ p)
          (sym (is_before-lex b c) ∙ q)

  is_before_asym : (a b : Diagnostic) → is_before decimal a b ≡ true → is_before decimal b a ≡ false
  is_before_asym a b p =
      is_before-lex b a
      ∙ lex_asym a.pos.file b.pos.file a.pos.line b.pos.line a.pos.col b.pos.col (key a) (key b)
          (sym (is_before-lex a b) ∙ p)

  is_before_total :
      (a b : Diagnostic)
      → str_eq (key a) (key b) ≡ false
      → is_before decimal a b ≡ false
      → is_before decimal b a ≡ true
  is_before_total a b n p =
      is_before-lex b a
      ∙ lex_total a.pos.file b.pos.file a.pos.line b.pos.line a.pos.col b.pos.col (key a) (key b) n
          (sym (is_before-lex a b) ∙ p)

  -- Two diagnostics with different texts find the same places in either order.
  place_comm :
      (a b : Diagnostic) (ds : List Diagnostic)
      → str_eq (key a) (key b) ≡ false
      → place decimal a (place decimal b ds) ≡ place decimal b (place decimal a ds)
  unfolding place
  place_comm a b [] n = ground (arith, is_before_asym a b, is_before_total a b n)
  place_comm a b (e ∷ ds) n = ground (
    arith,
    is_before_asym a b,
    is_before_total a b n,
    is_before_trans e b a,
    is_before_trans e a b,
    place_comm a b ds n,
  )

-- The same diagnostics in another order.
pub data Reordered : List Diagnostic → List Diagnostic → Type 0 where
  done : Reordered [] []
  keep : (d : Diagnostic) {ds es : List Diagnostic} → Reordered ds es → Reordered (d ∷ ds) (d ∷ es)
  swap : (a b : Diagnostic) (ds : List Diagnostic) → Reordered (a ∷ b ∷ ds) (b ∷ a ∷ ds)
  chain : {cs ds es : List Diagnostic} → Reordered cs ds → Reordered ds es → Reordered cs es

module _ (decimal : ℕ → Text) where
  Reordered-elem :
      (k : Text) {ds es : List Diagnostic}
      → Reordered ds es
      → elem k (keys decimal ds) ≡ elem k (keys decimal es)
  unfolding elem
  Reordered-elem k done = refl
  Reordered-elem k (keep d r) = ground (arith, Reordered-elem k r)
  Reordered-elem k (swap a b ds) = ground arith
  Reordered-elem k (chain r q) = Reordered-elem k r ∙ Reordered-elem k q

  Reordered-IsDistinct :
      {ds es : List Diagnostic}
      → Reordered ds es
      → IsDistinct (keys decimal ds)
      → IsDistinct (keys decimal es)
  unfolding elem
  Reordered-IsDistinct done h = h
  Reordered-IsDistinct (keep d r) h =
      (sym (Reordered-elem (key decimal d) r) ∙ h.0, Reordered-IsDistinct r h.1)
  Reordered-IsDistinct (swap a b ds) h = (
    ground (
      arith,
      h.0,
      h.1.0,
      str_eq_iff (key decimal a) (key decimal b),
      str_eq_iff (key decimal b) (key decimal a),
    ),
    (ground (arith, h.0), h.1.1),
  )
  Reordered-IsDistinct (chain r q) h = Reordered-IsDistinct q (Reordered-IsDistinct r h)

  sort_stable-Reordered :
      {ds es : List Diagnostic}
      → Reordered ds es
      → IsDistinct (keys decimal ds)
      → sort_stable decimal ds ≡ sort_stable decimal es
  unfolding sort_stable
  sort_stable-Reordered done h = refl
  sort_stable-Reordered (keep d r) h = ap (place decimal d) (sort_stable-Reordered r h.1)
  sort_stable-Reordered (swap a b ds) h =
      place_comm decimal a b (sort_stable decimal ds) (unfold elem in ground (arith, h.0))
  sort_stable-Reordered (chain r q) h =
      sort_stable-Reordered r h ∙ sort_stable-Reordered q (Reordered-IsDistinct r h)

  -- Two sinks that hold the same diagnostics, all different, answer the same list, in whatever order each of them holds them.
  pub items-Reordered :
      (s t : Diagnostics)
      → IsSink decimal s
      → Reordered s.items t.items
      → items decimal s ≡ items decimal t
  unfolding items
  items-Reordered s t h r = sort_stable-Reordered r h.distinct

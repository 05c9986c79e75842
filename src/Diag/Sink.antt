-- ===== src/Diag/Sink.antt =====
-- internal/diag/diag.go: what the sink keeps of the diagnostics that are added.
use cloudcc.Base.{
  ℕ, ◌<◌, ◌≤◌, ◌≡◌, refl, sym, ◌∙◌, ap, subst, Bool, true, false, ◌||◌, List, [], ◌∷◌, ◌++◌, Text,
  str_eq, str_eq_iff, elem, IsDistinct, leb, length, length-append, map, arith, Bool-cases, inl,
  inr, ◌⊎◌,
}
use cloudcc.Diag.Defs.{Diagnostic, Diagnostics, max_diagnostics, sink, diagnostic_string, add}

module _ (decimal : ℕ → Text) where
  abbrev pub keys : List Diagnostic → List Text
  keys ds = map (diagnostic_string decimal) ds

  -- The keys seen are those of the items, which all differ and are at most fifty.
  pub record IsSink (s : Diagnostics) : Type 0 where
    pub remembered : (k : Text) → elem k s.seen ≡ elem k (keys s.items)
    pub distinct : IsDistinct (keys s.items)
    pub bounded : length s.items ≤ 50

  pub sink-IsSink : (strict : Bool) → IsSink (sink strict)
  sink-IsSink strict = record {
    remembered = λ k. unfold elem in refl;
    distinct = tt;
    bounded = omega arith;
  }

  keys-append : (ds es : List Diagnostic) → keys (ds ++ es) ≡ keys ds ++ keys es
  keys-append [] es = refl
  keys-append (d ∷ ds) es = ap (λ t. diagnostic_string decimal d ∷ t) (keys-append ds es)

  elem-keys-append :
      (k : Text) (ds : List Diagnostic) (d : Diagnostic)
      → elem k (keys (ds ++ d ∷ [])) ≡ (elem k (keys ds) || str_eq k (diagnostic_string decimal d))
  unfolding elem
  elem-keys-append k [] d = ground arith
  elem-keys-append k (e ∷ ds) d = ground (arith, elem-keys-append k ds d)

  IsDistinct-append :
      (ds : List Diagnostic) (d : Diagnostic)
      → IsDistinct (keys ds)
      → elem (diagnostic_string decimal d) (keys ds) ≡ false
      → IsDistinct (keys (ds ++ d ∷ []))
  unfolding elem
  IsDistinct-append [] d h n = (refl, tt)
  IsDistinct-append (e ∷ ds) d h n = (
    ground (
      arith,
      h.0,
      elem-keys-append (diagnostic_string decimal e) ds d,
      str_eq_iff (diagnostic_string decimal e) (diagnostic_string decimal d),
      str_eq_iff (diagnostic_string decimal d) (diagnostic_string decimal e),
    ),
    IsDistinct-append ds d h.1 (ground arith),
  )

  -- What one call of `Add` does: nothing to a sink that has the key; else the item is appended if there is room, and
  -- only the truncation is noted if there is none.
  data Added (s : Diagnostics) (d : Diagnostic) (t : Diagnostics) : Type 0 where
    repeated : elem (diagnostic_string decimal d) s.seen ≡ true → t ≡ s → Added s d t
    dropped :
        elem (diagnostic_string decimal d) s.seen ≡ false
        → 50 ≤ length s.items
        → t ≡ record s { truncated = true }
        → Added s d t
    kept :
        elem (diagnostic_string decimal d) s.seen ≡ false
        → length s.items < 50
        → t ≡ record s { seen = diagnostic_string decimal d ∷ s.seen; items = s.items ++ d ∷ [] }
        → Added s d t

  add-Added : (s : Diagnostics) (d : Diagnostic) → Added s d (add decimal s d)
  unfolding add
  add-Added s d = elim (Bool-cases (elem (diagnostic_string decimal d) s.seen)) [
    | inl old ↦ repeated old (ground arith)
    | inr new ↦ elim (Bool-cases (leb max_diagnostics (length s.items))) [
      | inl full ↦ dropped new (ground arith) (ground arith)
      | inr room ↦ kept new (ground arith) (ground arith)
    ]
  ]

  kept-IsSink :
      (s : Diagnostics) (d : Diagnostic)
      → IsSink s
      → elem (diagnostic_string decimal d) s.seen ≡ false
      → length s.items < 50
      → IsSink (record s { seen = diagnostic_string decimal d ∷ s.seen; items = s.items ++ d ∷ [] })
  kept-IsSink s d h new room = record {
    remembered = λ k. unfold elem in ground (arith, h.remembered k, elem-keys-append k s.items d);
    distinct =
        IsDistinct-append s.items d h.distinct
          (sym (h.remembered (diagnostic_string decimal d)) ∙ new);
    bounded = omega (arith, length-append s.items (d ∷ []));
  }

  pub add-IsSink : (s : Diagnostics) (d : Diagnostic) → IsSink s → IsSink (add decimal s d)
  add-IsSink s d h = elim (add-Added s d) [
    | repeated old e ↦ subst IsSink (sym e) h
    | dropped new full e ↦
        subst IsSink (sym e)
          (record { remembered = h.remembered; distinct = h.distinct; bounded = h.bounded })
    | kept new room e ↦ subst IsSink (sym e) (kept-IsSink s d h new room)
  ]

  abbrev pub add_all : Diagnostics → List Diagnostic → Diagnostics
  add_all s [] = s
  add_all s (d ∷ ds) = add_all (add decimal s d) ds

  -- What a run of additions leaves in the sink.
  pub record Collects (s : Diagnostics) (ds : List Diagnostic) (t : Diagnostics) : Type 0 where
    pub is_sink : IsSink t
    pub complete :
        t.truncated ≡ false
        → (k : Text) → elem k (keys t.items) ≡ (elem k (keys s.items) || elem k (keys ds))
    pub cut_when_full : t.truncated ≡ true → (s.truncated ≡ true) ⊎ (length t.items ≡ 50)
    pub stays_truncated : s.truncated ≡ true → t.truncated ≡ true

  Collects-nil : (s : Diagnostics) → IsSink s → Collects s [] s
  unfolding elem
  Collects-nil s h = record {
    is_sink = h;
    complete = λ e k. ground arith;
    cut_when_full = λ e. inl e;
    stays_truncated = λ e. e;
  }

  -- A full sink keeps its items, whatever is added: an error that comes then is not counted.
  pub items-add_all_full :
      (s : Diagnostics) (ds : List Diagnostic)
      → length s.items ≡ 50
      → (add_all s ds).items ≡ s.items
  items-add_all_full s [] full = refl
  items-add_all_full s (d ∷ ds) full =
      let here : (add decimal s d).items ≡ s.items = elim (add-Added s d) [
        | repeated old e ↦ ap (λ t. t.items) e
        | dropped new f e ↦ ap (λ t. t.items) e
        | kept new room e ↦ absurd (omega (arith, full))
      ] in
      items-add_all_full (add decimal s d) ds (ap length here ∙ full) ∙ here

  Collects-cons :
      (s : Diagnostics) (d : Diagnostic) (ds : List Diagnostic) (u : Diagnostics)
      → IsSink s
      → Added s d u
      → Collects u ds (add_all u ds)
      → Collects s (d ∷ ds) (add_all u ds)
  unfolding elem
  Collects-cons s d ds u h (repeated old e) c =
      let key = diagnostic_string decimal d in
      let items : u.items ≡ s.items = ap (λ t. t.items) e in
      let cut : u.truncated ≡ s.truncated = ap (λ t. t.truncated) e in
      record {
        is_sink = c.is_sink;
        complete = λ p k.
            let there : str_eq k key ≡ true → elem k (keys s.items) ≡ true =
              (λ q. ground (arith, h.remembered key, str_eq_iff k key)) in
            ground (arith, c.complete p k, ap (λ xs. elem k (keys xs)) items, there);
        cut_when_full = λ p. ground (arith, c.cut_when_full p, cut);
        stays_truncated = λ p. c.stays_truncated (cut ∙ p);
      }
  Collects-cons s d ds u h (dropped new full e) c =
      let items : u.items ≡ s.items = ap (λ t. t.items) e in
      let cut : u.truncated ≡ true = ap (λ t. t.truncated) e in
      let at_limit : length s.items ≡ 50 = omega (arith, h.bounded) in
      record {
        is_sink = c.is_sink;
        complete = λ p k. absurd (ground (arith, c.stays_truncated cut));
        cut_when_full = λ p.
            inr
              (ap length (items-add_all_full u ds (ap length items ∙ at_limit) ∙ items) ∙ at_limit);
        stays_truncated = λ p. c.stays_truncated cut;
      }
  Collects-cons s d ds u h (kept new room e) c =
      let items : u.items ≡ s.items ++ d ∷ [] = ap (λ t. t.items) e in
      let cut : u.truncated ≡ s.truncated = ap (λ t. t.truncated) e in
      record {
        is_sink = c.is_sink;
        complete = λ p k. ground (
          arith,
          c.complete p k,
          ap (λ xs. elem k (keys xs)) items,
          elem-keys-append k s.items d,
        );
        cut_when_full = λ p. ground (arith, c.cut_when_full p, cut);
        stays_truncated = λ p. c.stays_truncated (cut ∙ p);
      }

  -- However many diagnostics are added, the sink keeps at most fifty, all different. Unless the output is truncated
  -- it has exactly the messages that it had and those that were added; and only a full sink truncates.
  pub add_all-Collects :
      (s : Diagnostics) (ds : List Diagnostic) → IsSink s → Collects s ds (add_all s ds)
  add_all-Collects s [] h = Collects-nil s h
  add_all-Collects s (d ∷ ds) h =
      Collects-cons s d ds (add decimal s d) h (add-Added s d)
        (add_all-Collects (add decimal s d) ds (add-IsSink s d h))

-- ===== src/Sanitize/Keep.antt =====
-- internal/sanitize/sanitize.go: what `collapse` and `keep` do to a text.
use cloudcc.Base.{
  ℕ, ◌≡◌, ◌<◌, ◌≤◌, refl, Bool, true, false, ◌&&◌, [], ◌∷◌, Text, ◌==◌, if◌then◌else◌, length, map,
  zero, suc, none, some, All, arith, Bool-cases, inl, inr, ap, sym, ◌∙◌, subst, All-if, ◌↔◌,
}
use cloudcc.Sanitize.Chars.{halve_runs, has_double, collapse_loop, collapse, keep}

length-halve_runs-le : (r : ℕ) (s : Text) → length (halve_runs r s) ≤ length s
unfolding halve_runs
length-halve_runs-le r [] = omega arith
length-halve_runs-le r (c ∷ []) = omega arith
length-halve_runs-le r (c ∷ d ∷ s) =
    ground (arith, length-halve_runs-le r (d ∷ s), length-halve_runs-le r s)

-- A pass over a text with a double makes it shorter.
length-halve_runs-lt :
    (r : ℕ) (s : Text) → has_double r s ≡ true → length (halve_runs r s) < length s
unfolding halve_runs has_double
length-halve_runs-lt r [] h = cc
length-halve_runs-lt r (c ∷ []) h = cc
length-halve_runs-lt r (c ∷ d ∷ s) h =
    ground (arith, length-halve_runs-lt r (d ∷ s), length-halve_runs-le r s)

-- The loop ends by its test, with a text that has no double.
collapse_loop_total :
    (fuel r : ℕ) (s : Text)
    → length s ≤ fuel
    → (t : Text) × (collapse_loop fuel r s ≡ some t) × (has_double r t ≡ false)
unfolding collapse_loop
collapse_loop_total zero r [] h = ([], unfold has_double in refl, unfold has_double in refl)
collapse_loop_total zero r (c ∷ s) h = absurd (omega arith)
collapse_loop_total (suc fuel) r s h = elim (Bool-cases (has_double r s)) [
  | inr clean ↦ (s, ground arith, clean)
  | inl double ↦
      let (t, e, clean) =
        collapse_loop_total fuel r (halve_runs r s)
          (omega (arith, length-halve_runs-lt r s double)) in
      (t, ground arith, clean)
]

pub has_double-collapse : (s : Text) (r : ℕ) → has_double r (collapse s r) ≡ false
unfolding collapse
has_double-collapse s r =
    let (t, e, clean) = collapse_loop_total (length s) r s (omega arith) in ground arith

module _ (P : ℕ → Type 0) (r : ℕ) (allowed : P r) where
  All-halve_runs : (s : Text) → All P s → All P (halve_runs r s)
  unfolding halve_runs
  All-halve_runs [] h = tt
  All-halve_runs (c ∷ []) h = h
  All-halve_runs (c ∷ d ∷ s) h =
      All-if P (c == r && d == r) (r ∷ halve_runs r s) (c ∷ halve_runs r (d ∷ s))
        (allowed, All-halve_runs s h.1.1) (h.0, All-halve_runs (d ∷ s) h.1)

  All-collapse_loop : (fuel : ℕ) (s t : Text) → All P s → collapse_loop fuel r s ≡ some t → All P t
  unfolding collapse_loop
  All-collapse_loop zero s t h e = elim (Bool-cases (has_double r s)) [
    | inl double ↦ absurd (ground arith)
    | inr clean ↦ let same : s ≡ t = ground arith in subst (All P) same h
  ]
  All-collapse_loop (suc fuel) s t h e = elim (Bool-cases (has_double r s)) [
    | inl double ↦ All-collapse_loop fuel (halve_runs r s) t (All-halve_runs s h) (ground arith)
    | inr clean ↦ let same : s ≡ t = ground arith in subst (All P) same h
  ]

  -- `collapse` writes no other characters.
  pub All-collapse : (s : Text) → All P s → All P (collapse s r)
  unfolding collapse
  All-collapse s h =
      let (t, e, clean) = collapse_loop_total (length s) r s (omega arith) in
      let same : t ≡ collapse s r = unfold collapse in ground arith in
      subst (All P) same (All-collapse_loop (length s) s t h e)

collapse_clean : (s : Text) (r : ℕ) → has_double r s ≡ false → collapse s r ≡ s
unfolding collapse
collapse_clean s r h = clean (length s) s h
  where
    clean :
        (fuel : ℕ) (s : Text)
        → has_double r s ≡ false
        → elim (collapse_loop fuel r s) [ none ↦ s | some t ↦ t ] ≡ s
    clean zero s h = ground arith
    clean (suc fuel) s h = ground arith

module _ (allow : ℕ → Bool) (sub : ℕ) where
  abbrev replaced : Text → Text
  replaced s = map (λ r. if allow r then r else sub) s

  All-replaced : (s : Text) → allow sub ≡ true → All (λ c. allow c ≡ true) (replaced s)
  All-replaced [] h = tt
  All-replaced (c ∷ s) h = (ground arith, All-replaced s h)

  replaced_allowed : (s : Text) → All (λ c. allow c ≡ true) s → replaced s ≡ s
  replaced_allowed [] h = refl
  replaced_allowed (c ∷ s) h = ground (arith, replaced_allowed s h.1)

  -- `keep` leaves allowed characters only, if the substitute is allowed, and no doubled substitute.
  pub keep_lem :
      (s : Text)
      → allow sub ≡ true
      → All (λ c. allow c ≡ true) (keep s allow sub) × (has_double sub (keep s allow sub) ≡ false)
  unfolding keep
  keep_lem s h = (
    All-collapse (λ c. allow c ≡ true) sub h (replaced s) (All-replaced s h),
    has_double-collapse (replaced s) sub,
  )

  -- `keep` leaves a text of allowed characters as it is exactly if the substitute is nowhere doubled.
  pub keep-eq_iff :
      (s : Text) → All (λ c. allow c ≡ true) s → (keep s allow sub ≡ s) ↔ (has_double sub s ≡ false)
  unfolding keep
  keep-eq_iff s h = (
    λ e.
        ap (has_double sub) (sym e ∙ ap (λ t. collapse t sub) (replaced_allowed s h))
        ∙ has_double-collapse s sub,
    λ clean. rw (replaced_allowed s h) (collapse_clean s sub clean),
  )

-- ===== src/Sanitize/Identifier.antt =====
-- internal/sanitize/sanitize.go: `Identifier`, which makes a JavaScript identifier of a text.
use cloudcc.Base.{
  ℕ, ◌≡◌, refl, Bool, true, false, ◌||◌, ◌&&◌, List, [], ◌∷◌, ◌++◌, Text, codes, elem, str_eq,
  str_eq_iff, ◌==◌, if◌then◌else◌, is_lower, is_upper, is_digit, ◌≢◌, All, All-append, arith,
  Bool-cases, inl, inr, map, not, ap,
}
use cloudcc.Sanitize.Chars.{is_alnum, upper, lower}

-- The words of `reservedJS`.
abbrev pub reserved_js : List Text
reserved_js = map codes (
    "await" ∷ "break" ∷ "case" ∷ "catch" ∷ "class" ∷ "const" ∷ "continue" ∷ "debugger" ∷ "default"
    ∷ "delete" ∷ "do" ∷ "else" ∷ "enum" ∷ "export" ∷ "extends" ∷ "false" ∷ "finally" ∷ "for"
    ∷ "function" ∷ "if" ∷ "implements" ∷ "import" ∷ "in" ∷ "instanceof" ∷ "interface" ∷ "let"
    ∷ "new" ∷ "null" ∷ "package" ∷ "private" ∷ "protected" ∷ "public" ∷ "return" ∷ "static"
    ∷ "super" ∷ "switch" ∷ "this" ∷ "throw" ∷ "true" ∷ "try" ∷ "typeof" ∷ "var" ∷ "void" ∷ "while"
    ∷ "with" ∷ "yield" ∷ [])

unfoldable pub is_reserved_js : Text → Bool
unfolding elem
is_reserved_js s = elem s reserved_js

abbrev is_empty : Text → Bool
is_empty [] = true
is_empty (c ∷ s) = false

-- The loop of `Identifier`, with the builder's text and `upperNext`. At the index 0 the builder is empty, so
-- that the test of the index decides nothing.
unfoldable pub scan : Text → Bool → Text → Text
scan out upper_next [] = out
scan out upper_next (r ∷ s) =
    let letter = if upper_next then upper r else if is_empty out then lower r else r in
    let digits = (if is_empty out then b'n' ∷ [] else out) ++ r ∷ [] in
    let at_letter = scan (out ++ letter ∷ []) false s in
    let at_digit = scan digits false s in
    let at_other = scan out (not (is_empty out) || upper_next) s in
    if is_lower r || is_upper r then at_letter else if is_digit r then at_digit else at_other

unfoldable pub identifier : Text → Text
identifier s =
    let out = scan [] false s in
    if is_empty out then codes "resource" else if is_reserved_js out then out ++ b'_' ∷ [] else out

-- A lower-case letter, then letters and digits.
abbrev IsCamel : Text → Type 0
IsCamel [] = Unit {0}
IsCamel (c ∷ s) = (is_lower c ≡ true) × All (λ d. is_alnum d ≡ true) s

-- What JavaScript takes for an identifier, among ASCII texts.
abbrev pub IsIdentifier : Text → Type 0
IsIdentifier [] = false ≡ true
IsIdentifier (c ∷ s) =
    (is_lower c ≡ true)
    × All (λ d. is_alnum d || d == b'_' ≡ true) s
    × (is_reserved_js (c ∷ s) ≡ false)

-- A letter or a digit that is written after something, or a lower-case letter at the start, keeps the shape.
IsCamel-append :
    (out : Text) (r : ℕ)
    → IsCamel out
    → (is_empty out ≡ true → is_lower r ≡ true)
    → is_alnum r ≡ true
    → IsCamel (out ++ r ∷ [])
IsCamel-append [] r h low a = (low refl, tt)
IsCamel-append (c ∷ s) r h low a = (h.0, All-append (λ d. is_alnum d ≡ true) s (r ∷ []) h.1 (a, tt))

IsCamel-if :
    (b : Bool) (s t : Text)
    → (b ≡ true → IsCamel s)
    → (b ≡ false → IsCamel t)
    → IsCamel (if b then s else t)
IsCamel-if true s t hs ht = hs refl
IsCamel-if false s t hs ht = ht refl

-- A digit, after an `n` if it comes first.
IsCamel-digit :
    (out : Text) (r : ℕ)
    → IsCamel out
    → is_digit r ≡ true
    → IsCamel ((if is_empty out then b'n' ∷ [] else out) ++ r ∷ [])
IsCamel-digit [] r h d = (refl, (ground arith, tt))
IsCamel-digit (c ∷ s) r h d =
    (h.0, All-append (λ d. is_alnum d ≡ true) s (r ∷ []) h.1 (ground arith, tt))

is_empty-append : (out : Text) (r : ℕ) → is_empty (out ++ r ∷ []) ≡ false
is_empty-append [] r = refl
is_empty-append (c ∷ s) r = refl

scan-IsCamel :
    (out : Text) (upper_next : Bool) (s : Text)
    → IsCamel out
    → (upper_next ≡ true → is_empty out ≡ false)
    → IsCamel (scan out upper_next s)
unfolding scan
scan-IsCamel out upper_next [] h k = h
scan-IsCamel out upper_next (r ∷ s) h k =
    let letter = if upper_next then upper r else if is_empty out then lower r else r in
    let digits = (if is_empty out then b'n' ∷ [] else out) ++ r ∷ [] in
    IsCamel-if (is_lower r || is_upper r) (scan (out ++ letter ∷ []) false s) _
      (λ l.
        scan-IsCamel (out ++ letter ∷ []) false s
          (IsCamel-append out letter h (λ e. ground (arith, k)) (ground arith))
          (λ e. absurd (ground arith)))
      (λ _.
        IsCamel-if (is_digit r) (scan digits false s) _
          (λ d. scan-IsCamel digits false s (IsCamel-digit out r h d) (λ e. absurd (ground arith)))
          (λ _. scan-IsCamel out (not (is_empty out) || upper_next) s h (λ e. ground (arith, k))))

abbrev all_lower : Text → Bool
all_lower [] = true
all_lower (c ∷ s) = is_lower c && all_lower s

abbrev words_lower : List Text → Bool
words_lower [] = true
words_lower (w ∷ words) = all_lower w && words_lower words

elem-all_lower :
    (t : Text) (words : List Text)
    → words_lower words ≡ true
    → elem t words ≡ true
    → all_lower t ≡ true
unfolding elem
elem-all_lower t [] h e = absurd (ground arith)
elem-all_lower t (w ∷ words) h e = elim (Bool-cases (str_eq t w)) [
  | inl same ↦ let eq : t ≡ w = (str_eq_iff t w).0 same in ground (arith, ap all_lower eq)
  | inr n ↦ elem-all_lower t words (ground arith) (ground arith)
]

all_lower-append : (t : Text) → all_lower (t ++ b'_' ∷ []) ≡ false
all_lower-append [] = refl
all_lower-append (c ∷ s) = ground (arith, all_lower-append s)

-- No reserved word has an underscore.
is_reserved_js-append : (t : Text) → is_reserved_js (t ++ b'_' ∷ []) ≡ false
unfolding is_reserved_js
is_reserved_js-append t = elim (Bool-cases (elem (t ++ b'_' ∷ []) reserved_js)) [
  | inl e ↦
      absurd
        (ground (arith, elem-all_lower (t ++ b'_' ∷ []) reserved_js refl e, all_lower-append t))
  | inr n ↦ n
]

All-weaken :
    (s : Text) → All (λ d. is_alnum d ≡ true) s → All (λ d. is_alnum d || d == b'_' ≡ true) s
All-weaken [] h = tt
All-weaken (c ∷ s) h = (ground arith, All-weaken s h.1)

guarded :
    (out : Text)
    → IsCamel out
    → out ≢ []
    → IsIdentifier (if is_reserved_js out then out ++ b'_' ∷ [] else out)
guarded [] h n = absurd (n refl)
guarded (c ∷ s) h n = choose (is_reserved_js (c ∷ s)) refl
  where
    choose :
        (b : Bool)
        → is_reserved_js (c ∷ s) ≡ b
        → IsIdentifier (if b then c ∷ s ++ b'_' ∷ [] else c ∷ s)
    choose true e = (
      h.0,
      All-append (λ d. is_alnum d || d == b'_' ≡ true) s (b'_' ∷ []) (All-weaken s h.1) (refl, tt),
      is_reserved_js-append (c ∷ s),
    )
    choose false e = (h.0, All-weaken s h.1, e)

-- Whatever the text is, `Identifier` gives a text that starts with a lower-case letter, goes on with letters, digits
-- and underscores only, and is no reserved word.
pub identifier-IsIdentifier : (s : Text) → IsIdentifier (identifier s)
unfolding identifier
identifier-IsIdentifier s =
    finish (scan [] false s) (scan-IsCamel [] false s tt (λ e. absurd (ground arith)))
  where
    finish :
        (out : Text)
        → IsCamel out
        → IsIdentifier (
            if is_empty out
            then codes "resource"
            else if is_reserved_js out
            then out ++ b'_' ∷ []
            else out)
    finish [] h = (
      refl,
      All-weaken (codes "esource") (refl, (refl, (refl, (refl, (refl, (refl, (refl, tt))))))),
      unfold is_reserved_js elem str_eq in refl,
    )
    finish (c ∷ t) h = guarded (c ∷ t) h (λ e. cc)

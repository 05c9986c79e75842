-- ===== src/Sanitize/Chars.antt =====
-- internal/sanitize/sanitize.go: the character classes, and the steps that the service rules share.
use cloudcc.Base.{
  ℕ, ◌+◌, ◌-◌, Bool, false, ◌||◌, ◌&&◌, [], ◌∷◌, ◌++◌, Text, codes, ◌==◌, if◌then◌else◌, is_lower,
  is_upper, is_digit, has_char, length, map, zero, suc, Option, none, some,
}

abbrev pub is_alnum : ℕ → Bool
is_alnum r = is_lower r || is_upper r || is_digit r

abbrev pub is_dynamo_rune : ℕ → Bool
is_dynamo_rune r = is_alnum r || r == b'_' || r == b'.' || r == b'-'

abbrev pub is_s3_rune : ℕ → Bool
is_s3_rune r = is_lower r || is_digit r || r == b'.' || r == b'-'

abbrev pub is_lambda_rune : ℕ → Bool
is_lambda_rune r = is_alnum r || r == b'-' || r == b'_'

unfoldable pub is_secret_rune : ℕ → Bool
unfolding has_char
is_secret_rune r = is_alnum r || has_char r (codes "/_+=.@-")

unfoldable pub is_iam_rune : ℕ → Bool
unfolding has_char
is_iam_rune r = is_alnum r || has_char r (codes "+=,.@_-")

abbrev pub is_hyphen_alnum : ℕ → Bool
is_hyphen_alnum r = is_lower r || is_digit r || r == b'-'

abbrev pub upper : ℕ → ℕ
upper r = if is_lower r then r - 32 else r

abbrev pub lower : ℕ → ℕ
lower r = if is_upper r then r + 32 else r

-- `join`.
unfoldable pub join : Text → Text → Text
join [] b = b
join (c ∷ a) [] = c ∷ a
join (c ∷ a) (d ∷ b) = (c ∷ a) ++ b'-' ∷ d ∷ b

-- One pass of `strings.ReplaceAll(s, rr, r)`, from left to right.
unfoldable pub halve_runs : ℕ → Text → Text
halve_runs r [] = []
halve_runs r (c ∷ []) = c ∷ []
halve_runs r (c ∷ d ∷ s) =
    let kept = c ∷ halve_runs r (d ∷ s) in
    let halved = r ∷ halve_runs r s in if c == r && d == r then halved else kept

-- `strings.Contains(s, rr)`.
unfoldable pub has_double : ℕ → Text → Bool
has_double r [] = false
has_double r (c ∷ s) =
    let rest = has_double r s in elim s [ [] ↦ false | d ∷ t ↦ (c == r && d == r) || rest ]

-- The loop of `collapse`, on fuel: a pass over a text with a double shortens it.
unfoldable pub collapse_loop : ℕ → ℕ → Text → Option Text
collapse_loop zero r s = if has_double r s then none else some s
collapse_loop (suc fuel) r s =
    let again = collapse_loop fuel r (halve_runs r s) in if has_double r s then again else some s

-- The length of the text is fuel enough (`collapse_loop_total`).
unfoldable pub collapse : Text → ℕ → Text
unfolding collapse_loop has_double halve_runs
collapse s r = elim (collapse_loop (length s) r s) [ none ↦ s | some t ↦ t ]

unfoldable pub keep : Text → (ℕ → Bool) → ℕ → Text
unfolding collapse
keep s allow sub = collapse (map (λ r. if allow r then r else sub) s) sub

-- `strings.TrimLeft`, `TrimRight` and `Trim` for a set of characters.
unfoldable pub trim_left : (ℕ → Bool) → Text → Text
trim_left p [] = []
trim_left p (c ∷ s) = let rest = trim_left p s in if p c then rest else c ∷ s

unfoldable pub trim_right : (ℕ → Bool) → Text → Text
trim_right p [] = []
trim_right p (c ∷ s) = elim (trim_right p s) [ [] ↦ if p c then [] else c ∷ [] | d ∷ t ↦ c ∷ d ∷ t ]

unfoldable pub trim : (ℕ → Bool) → Text → Text
unfolding trim_left trim_right
trim p s = trim_right p (trim_left p s)

abbrev is_first_letter : Text → Bool
is_first_letter [] = false
is_first_letter (c ∷ s) = is_lower c

unfoldable pub lead_with_letter : Text → Text → Text
lead_with_letter s prefix = if is_first_letter s then s else prefix ++ s

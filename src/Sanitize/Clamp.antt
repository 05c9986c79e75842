-- ===== src/Sanitize/Clamp.antt =====
-- internal/sanitize/sanitize.go: what `clamp` guarantees, whatever the digest is.
use cloudcc.Base.{
  ℕ, ◌≡◌, ◌+◌, ◌-◌, ◌≤◌, refl, Bool, true, ◌||◌, ◌&&◌, [], ◌∷◌, ◌++◌, Text, ltb, leb, length, take,
  zero, suc, All, All-append, All-take, All-if, arith, length-append, length-take, is_digit, ◌≢◌,
}
use cloudcc.Sanitize.Names.{pad_loop, padded, suffix, clamp}

-- A hexadecimal digit, as `encoding/hex` writes it.
abbrev pub is_hex : ℕ → Bool
is_hex c = is_digit c || (leb b'a' c && leb c b'f')

-- A text of allowed characters whose length is within bounds.
pub record IsName (allow : ℕ → Bool) (low high : ℕ) (s : Text) : Type 0 where
  pub allowed : All (λ c. allow c ≡ true) s
  pub long_enough : low ≤ length s
  pub short_enough : length s ≤ high

pad_loop-le :
    (fuel low : ℕ) (pad s : Text)
    → 1 ≤ length pad
    → low ≤ length s + fuel
    → low ≤ length (pad_loop fuel low pad s)
unfolding pad_loop
pad_loop-le zero low pad s p h = omega arith
pad_loop-le (suc fuel) low pad s p h =
    ground (arith, pad_loop-le fuel low pad (s ++ pad), length-append s pad)

padded-le : (s : Text) (low : ℕ) (pad : Text) → 1 ≤ length pad → low ≤ length (padded s low pad)
unfolding padded
padded-le [] low pad p = pad_loop-le low low pad pad p (omega arith)
padded-le (c ∷ s) low pad p = pad_loop-le low low pad (c ∷ s) p (omega arith)

module _ (P : ℕ → Type 0) where
  All-pad_loop :
      (fuel low : ℕ) (pad s : Text) → All P pad → All P s → All P (pad_loop fuel low pad s)
  unfolding pad_loop
  All-pad_loop zero low pad s hp hs = hs
  All-pad_loop (suc fuel) low pad s hp hs =
      All-if P (ltb (length s) low) (pad_loop fuel low pad (s ++ pad)) s
        (All-pad_loop fuel low pad (s ++ pad) hp (All-append P s pad hs hp)) hs

  pub All-padded :
      (s : Text) (low : ℕ) (pad : Text) → All P pad → All P s → All P (padded s low pad)
  unfolding padded
  All-padded [] low pad hp hs = All-pad_loop low low pad pad hp hp
  All-padded (c ∷ s) low pad hp hs = All-pad_loop low low pad (c ∷ s) hp hs

padded_same : (s : Text) (low : ℕ) (pad : Text) → s ≢ [] → low ≤ length s → padded s low pad ≡ s
unfolding padded pad_loop
padded_same [] low pad n h = absurd (n refl)
padded_same (c ∷ s) zero pad n h = refl
padded_same (c ∷ s) (suc low) pad n h = ground arith

All-map {ℓ κ} :
    {P : ℕ → Type ℓ} {Q : ℕ → Type κ} (s : Text) → ((c : ℕ) → P c → Q c) → All P s → All Q s
All-map [] f h = tt
All-map (c ∷ s) f h = (f c h.0, All-map s f h.1)

module _ (hex : Text → Text) (length-hex : (s : Text) → length (hex s) ≡ 64)
    (hex_digits : (s : Text) → All (λ c. is_hex c ≡ true) (hex s)) where
  length-suffix : (s : Text) → length (suffix hex s) ≡ 9
  length-suffix s = omega (arith, length-take 8 (hex s), length-hex s)

  clamp_bounds :
      (s : Text) (low high : ℕ) (pad : Text)
      → 1 ≤ length pad
      → low ≤ high
      → 9 ≤ high
      → (low ≤ length (clamp hex s low high pad)) × (length (clamp hex s low high pad) ≤ high)
  unfolding clamp
  clamp_bounds s low high pad p h k =
      let t = padded s low pad in
      ground (
        arith,
        padded-le s low pad,
        length-suffix t,
        length-append (take (high - length (suffix hex t)) t) (suffix hex t),
        length-take (high - length (suffix hex t)) t,
      )

  -- `clamp` makes a name of a text of allowed characters, if the pad, the hyphen and the hexadecimal
  -- digits are allowed.
  pub clamp-IsName :
      (allow : ℕ → Bool) (s : Text) (low high : ℕ) (pad : Text)
      → All (λ c. allow c ≡ true) s
      → All (λ c. allow c ≡ true) pad
      → 1 ≤ length pad
      → low ≤ high
      → 9 ≤ high
      → allow b'-' ≡ true
      → ((c : ℕ) → is_hex c ≡ true → allow c ≡ true)
      → IsName allow low high (clamp hex s low high pad)
  unfolding clamp
  clamp-IsName allow s low high pad hs hp p h k hyphen digits =
      let bounds = clamp_bounds s low high pad p h k in
      let P = λ (c : ℕ). allow c ≡ true in
      let t = padded s low pad in
      let ht = All-padded P s low pad hp hs in
      record {
        allowed =
            All-if P (ltb high (length t)) (take (high - length (suffix hex t)) t ++ suffix hex t) t
              (All-append P _ (suffix hex t) (All-take P (high - length (suffix hex t)) t ht)
                (hyphen, All-take P 8 (hex t) (All-map (hex t) digits (hex_digits t))))
              ht;
        long_enough = bounds.0;
        short_enough = bounds.1;
      }

  -- A text within the bounds is left as it is.
  pub clamp_same :
      (s : Text) (low high : ℕ) (pad : Text)
      → s ≢ []
      → low ≤ length s
      → length s ≤ high
      → clamp hex s low high pad ≡ s
  unfolding clamp
  clamp_same s low high pad n h k = ground (arith, padded_same s low pad n h)

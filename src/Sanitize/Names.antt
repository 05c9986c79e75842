-- ===== src/Sanitize/Names.antt =====
-- internal/sanitize/sanitize.go: `clamp` and the rule of each service. Two functions of Go's library are
-- parameters: `hex`, the hexadecimal SHA-256 digest of a text, and `to_lower`, `unicode.ToLower`, which
-- `strings.ToLower` applies to every character. Each rule hands `clamp` a text of ASCII characters only, so its
-- lengths and cuts in bytes are those in characters.
use cloudcc.Base.{
  ℕ, ◌-◌, Bool, ◌||◌, [], ◌∷◌, ◌++◌, Text, codes, ltb, ◌==◌, if◌then◌else◌, is_lower, is_digit,
  is_upper, length, take, map, zero, suc,
}
use cloudcc.Sanitize.Chars.{
  is_dynamo_rune, is_s3_rune, is_lambda_rune, is_secret_rune, is_iam_rune, is_hyphen_alnum, upper,
  join, collapse, keep, trim, trim_right, lead_with_letter,
}

-- `for len(s) < min { s += pad }`: as many rounds as `min` are enough for a pad that is not empty.
unfoldable pub pad_loop : ℕ → ℕ → Text → Text → Text
pad_loop zero min pad s = s
pad_loop (suc fuel) min pad s =
    let again = pad_loop fuel min pad (s ++ pad) in if ltb (length s) min then again else s

unfoldable pub padded : Text → ℕ → Text → Text
unfolding pad_loop
padded [] min pad = pad_loop min min pad pad
padded (c ∷ s) min pad = pad_loop min min pad (c ∷ s)

abbrev pub is_dot_hyphen : ℕ → Bool
is_dot_hyphen c = c == b'.' || c == b'-'

abbrev pub is_hyphen : ℕ → Bool
is_hyphen c = c == b'-'

unfoldable pub env_char : ℕ → ℕ
env_char r = if is_lower r then upper r else if is_upper r || is_digit r then r else b'_'

-- `EnvVar`.
unfoldable pub env_var : Text → Text
unfolding env_char
env_var s = map env_char s

module _ (hex : Text → Text) where
  abbrev pub suffix : Text → Text
  suffix s = b'-' ∷ take 8 (hex s)

  unfoldable pub clamp : Text → ℕ → ℕ → Text → Text
  unfolding padded
  clamp s min max pad =
      let t = padded s min pad in
      if ltb max (length t) then take (max - length (suffix t)) t ++ suffix t else t

  unfoldable pub dynamo_table : Text → Text → Text
  dynamo_table app id = clamp (keep (join app id) (λ r. is_dynamo_rune r) b'-') 3 255 (codes "tbl")

  unfoldable pub lambda_function : Text → Text → Text
  lambda_function app id = clamp (keep (join app id) (λ r. is_lambda_rune r) b'-') 1 64 (codes "fn")

  unfoldable pub sns_topic : Text → Text → Text
  sns_topic app id = clamp (keep (join app id) (λ r. is_lambda_rune r) b'-') 1 256 (codes "topic")

  unfoldable pub sqs_queue : Text → Text → Text
  sqs_queue app id = clamp (keep (join app id) (λ r. is_lambda_rune r) b'-') 1 80 (codes "queue")

  unfoldable pub secret_name : Text → Text → Text
  secret_name app id = clamp (keep (join app id) is_secret_rune b'-') 1 512 (codes "secret")

  unfoldable pub api_name : Text → Text → Text
  api_name app id = clamp (keep (join app id) (λ r. is_lambda_rune r) b'-') 1 128 (codes "api")

  unfoldable pub statement_id : Text → Text → Text → Text
  statement_id app id extra =
      clamp (keep (join (join app id) extra) (λ r. is_lambda_rune r) b'-') 1 100 (codes "stmt")

  unfoldable pub iam_name : Text → Text → Text → Text
  iam_name app id extra =
      clamp (keep (join (join app id) extra) is_iam_rune b'-') 1 64 (codes "role")

  module _ (to_lower : ℕ → ℕ) where
    unfoldable pub s3_bucket : Text → Text → Text
    s3_bucket app id =
        let kept = keep (map to_lower (join app id)) (λ r. is_s3_rune r) b'-' in
        let trimmed = trim is_dot_hyphen (collapse kept b'.') in
        trim is_dot_hyphen (clamp trimmed 3 63 (codes "bkt"))

    -- The part that the rules for cache clusters and for databases share.
    unfoldable pub hyphenated : Text → Text → Text → Text
    hyphenated app id lead =
        let kept = keep (map to_lower (join app id)) (λ r. is_hyphen_alnum r) b'-' in
        lead_with_letter (trim is_hyphen (collapse kept b'-')) lead

    unfoldable pub elasticache_cluster : Text → Text → Text
    elasticache_cluster app id =
        trim_right is_hyphen (clamp (hyphenated app id (codes "c")) 1 50 (codes "cache"))

    unfoldable pub rds_identifier : Text → Text → Text
    rds_identifier app id =
        trim_right is_hyphen (clamp (hyphenated app id (codes "d")) 1 63 (codes "db"))

    unfoldable pub db_identifier : Text → Text
    db_identifier id =
        let kept = keep (map to_lower id) (λ r. is_lower r || is_digit r || r == b'_') b'_' in
        clamp (lead_with_letter kept (codes "d")) 1 63 (codes "db")

-- ===== src/Sanitize/Tests.antt =====
-- internal/sanitize on sample texts, with a digest of sixty-four zeros.
use cloudcc.Base.{
  ◌++◌, ℕ, zero, suc, ◌≡◌, refl, true, false, [], ◌∷◌, ◌↔◌, Text, codes, All, length, str_eq, elem,
  is_upper, if◌then◌else◌, ◌+◌,
}
use cloudcc.Sanitize.Chars.{
  lead_with_letter, is_dynamo_rune, is_lambda_rune, is_secret_rune, is_iam_rune, keep, has_double,
  join, trim, collapse,
}
use cloudcc.Sanitize.Keep.{keep-eq_iff}
use cloudcc.Sanitize.Clamp.{is_hex, IsName}
use cloudcc.Sanitize.Names.{
  hyphenated, rds_identifier, env_var, clamp, dynamo_table, lambda_function, sns_topic, sqs_queue,
  secret_name, api_name, statement_id, iam_name, s3_bucket,
}
use cloudcc.Sanitize.Valid.{names-IsName}
use cloudcc.Sanitize.Env.{env_names, IsEnvName, env_names-IsEnvName, env_kv_table}
use cloudcc.Sanitize.Identifier.{
  identifier, scan, is_reserved_js, IsIdentifier, identifier-IsIdentifier,
}

abbrev zeros : ℕ → Text
zeros zero = []
zeros (suc n) = b'0' ∷ zeros n

abbrev digest : Text → Text
digest s = zeros 64

abbrev hyphens : ℕ → Text
hyphens zero = []
hyphens (suc n) = b'-' ∷ hyphens n

length-digest : (s : Text) → length (digest s) ≡ 64
length-digest s = refl

digest_digits : (s : Text) → All (λ c. is_hex c ≡ true) (digest s)
digest_digits s = all 64
  where
    all : (n : ℕ) → All (λ c. is_hex c ≡ true) (zeros n)
    all zero = tt
    all (suc n) = (refl, all n)

abbrev ascii_lower : ℕ → ℕ
ascii_lower c = if is_upper c then c + 32 else c

names-IsName_example :
    IsName (λ c. is_dynamo_rune c) 3 255 (dynamo_table digest (codes "shop") (codes "my cart"))
    × IsName (λ c. is_lambda_rune c) 1 64 (lambda_function digest (codes "shop") (codes "my cart"))
    × IsName (λ c. is_lambda_rune c) 1 256 (sns_topic digest (codes "shop") (codes "my cart"))
    × IsName (λ c. is_lambda_rune c) 1 80 (sqs_queue digest (codes "shop") (codes "my cart"))
    × IsName is_secret_rune 1 512 (secret_name digest (codes "shop") (codes "my cart"))
    × IsName (λ c. is_lambda_rune c) 1 128 (api_name digest (codes "shop") (codes "my cart"))
    × IsName
        (λ c. is_lambda_rune c)
        1
        100
        (statement_id digest (codes "shop") (codes "my cart") (codes "x"))
    × IsName is_iam_rune 1 64 (iam_name digest (codes "shop") (codes "my cart") (codes "x"))
names-IsName_example =
    names-IsName digest length-digest digest_digits (codes "shop") (codes "my cart") (codes "x")

identifier_reserved : identifier (codes "New") ≡ codes "new_"
unfolding identifier scan is_reserved_js elem str_eq
identifier_reserved = refl

identifier_camel : identifier (codes "9-lives left") ≡ codes "n9LivesLeft"
unfolding identifier scan is_reserved_js elem str_eq
identifier_camel = refl

identifier-IsIdentifier_example : IsIdentifier (identifier (codes "my cart"))
identifier-IsIdentifier_example = identifier-IsIdentifier (codes "my cart")

keep-eq_iff_example :
    (keep (codes "a--b") (λ c. is_lambda_rune c) b'-' ≡ codes "a--b")
    ↔ (has_double b'-' (codes "a--b") ≡ false)
keep-eq_iff_example =
    keep-eq_iff (λ c. is_lambda_rune c) b'-' (codes "a--b") (refl, (refl, (refl, (refl, tt))))

-- A table name that the service allows, and that the rule changes.
dynamo_doubled : dynamo_table digest [] (codes "a--b") ≡ codes "a-b"
unfolding dynamo_table join keep clamp
dynamo_doubled = refl

s3_example : s3_bucket digest ascii_lower (codes "Shop") (codes "..Cart_") ≡ codes "shop-.cart"
unfolding s3_bucket join keep clamp collapse trim
s3_example = refl

env_names-IsEnvName_example : All IsEnvName (env_names (codes "my cart"))
env_names-IsEnvName_example = env_names-IsEnvName (codes "my cart")

-- Two ids, one variable.
env_kv_table_twice : env_kv_table (codes "my-cart") ≡ env_kv_table (codes "my_cart")
unfolding env_kv_table env_var
env_kv_table_twice = refl

abbrev letters : ℕ → Text
letters zero = []
letters (suc n) = b'a' ∷ letters n

-- The cut of a long identifier falls behind a hyphen, and the digest brings another.
rds_doubled :
    has_double b'-' (rds_identifier digest ascii_lower [] (letters 53 ++ b'-' ∷ letters 20)) ≡ true
unfolding has_double rds_identifier hyphenated join keep clamp trim collapse lead_with_letter
rds_doubled = refl

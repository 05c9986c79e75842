-- ===== src/Sanitize/Valid.antt =====
-- internal/sanitize/sanitize.go: the names that the rules give are valid names.
use cloudcc.Base.{ℕ, ◌≡◌, ◌≤◌, refl, Bool, true, Text, length, All, arith, codes}
use cloudcc.Sanitize.Chars.{is_dynamo_rune, is_lambda_rune, is_secret_rune, is_iam_rune, join, keep}
use cloudcc.Sanitize.Keep.{keep_lem}
use cloudcc.Sanitize.Clamp.{is_hex, IsName, clamp-IsName}
use cloudcc.Sanitize.Names.{
  clamp, dynamo_table, lambda_function, sns_topic, sqs_queue, secret_name, api_name, statement_id,
  iam_name,
}

module _ (hex : Text → Text) (length-hex : (s : Text) → length (hex s) ≡ 64)
    (hex_digits : (s : Text) → All (λ c. is_hex c ≡ true) (hex s)) where
  -- A rule that keeps what is allowed and clamps the rest.
  kept-IsName :
      (allow : ℕ → Bool) (s : Text) (low high : ℕ) (pad : Text)
      → All (λ c. allow c ≡ true) pad
      → 1 ≤ length pad
      → low ≤ high
      → 9 ≤ high
      → allow b'-' ≡ true
      → ((c : ℕ) → is_hex c ≡ true → allow c ≡ true)
      → IsName allow low high (clamp hex (keep s allow b'-') low high pad)
  kept-IsName allow s low high pad hp p h k hyphen digits =
      clamp-IsName hex length-hex hex_digits allow (keep s allow b'-') low high pad
        ((keep_lem allow b'-' s hyphen).0) hp p h k hyphen digits

  plain :
      (a b : Text) (high : ℕ) (pad : Text)
      → All (λ c. is_lambda_rune c ≡ true) pad
      → 1 ≤ length pad
      → 9 ≤ high
      → IsName
          (λ c. is_lambda_rune c)
          1
          high
          (clamp hex (keep (join a b) (λ c. is_lambda_rune c) b'-') 1 high pad)
  plain a b high pad hp p h =
      kept-IsName (λ c. is_lambda_rune c) (join a b) 1 high pad hp p (omega arith) h refl
        (λ c k. ground arith)

  -- Whatever the application and the id are, if a digest has sixty-four hexadecimal characters, the names for DynamoDB,
  -- Lambda, SNS, SQS, Secrets Manager, API Gateway, Lambda permissions and IAM hold only characters that the service
  -- allows, and their lengths are in its range.
  pub names-IsName :
      (app id extra : Text)
      → IsName (λ c. is_dynamo_rune c) 3 255 (dynamo_table hex app id)
        × IsName (λ c. is_lambda_rune c) 1 64 (lambda_function hex app id)
        × IsName (λ c. is_lambda_rune c) 1 256 (sns_topic hex app id)
        × IsName (λ c. is_lambda_rune c) 1 80 (sqs_queue hex app id)
        × IsName is_secret_rune 1 512 (secret_name hex app id)
        × IsName (λ c. is_lambda_rune c) 1 128 (api_name hex app id)
        × IsName (λ c. is_lambda_rune c) 1 100 (statement_id hex app id extra)
        × IsName is_iam_rune 1 64 (iam_name hex app id extra)
  unfolding dynamo_table lambda_function sns_topic sqs_queue secret_name api_name statement_id
      iam_name is_secret_rune is_iam_rune
  names-IsName app id extra = (
    kept-IsName (λ c. is_dynamo_rune c) (join app id) 3 255 (codes "tbl") (refl, (refl, (refl, tt)))
        (omega arith) (omega arith) (omega arith) refl (λ c h. ground arith),
    plain app id 64 (codes "fn") (refl, (refl, tt)) (omega arith) (omega arith),
    plain app id 256 (codes "topic") (refl, (refl, (refl, (refl, (refl, tt))))) (omega arith)
        (omega arith),
    plain app id 80 (codes "queue") (refl, (refl, (refl, (refl, (refl, tt))))) (omega arith)
        (omega arith),
    kept-IsName is_secret_rune (join app id) 1 512 (codes "secret")
        (refl, (refl, (refl, (refl, (refl, (refl, tt)))))) (omega arith) (omega arith) (omega arith)
        refl (λ c h. ground arith),
    plain app id 128 (codes "api") (refl, (refl, (refl, tt))) (omega arith) (omega arith),
    plain (join app id) extra 100 (codes "stmt") (refl, (refl, (refl, (refl, tt)))) (omega arith)
        (omega arith),
    kept-IsName is_iam_rune (join (join app id) extra) 1 64 (codes "role")
        (refl, (refl, (refl, (refl, tt)))) (omega arith) (omega arith) (omega arith) refl
        (λ c h. ground arith),
  )

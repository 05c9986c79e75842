-- ===== src/Sanitize/Env.antt =====
-- internal/provider/aws/names.go: the names of the environment variables, each a prefix, the segment of the id and a suffix.
use cloudcc.Base.{
  ℕ, ◌≡◌, refl, Bool, true, ◌||◌, ◌&&◌, ◌==◌, List, [], ◌∷◌, ◌++◌, Text, codes, is_upper, is_digit,
  All, All-append, arith, String,
}
use cloudcc.Sanitize.Names.{env_var, env_char}

unfoldable pub env_kv_table : Text → Text
env_kv_table id = codes "CLOUDCC_KV_" ++ env_var id ++ codes "_TABLE"

unfoldable pub env_fs_bucket : Text → Text
env_fs_bucket id = codes "CLOUDCC_FS_" ++ env_var id ++ codes "_BUCKET"

unfoldable pub env_secret_arn : Text → Text
env_secret_arn id = codes "CLOUDCC_SECRET_" ++ env_var id ++ codes "_ARN"

unfoldable pub env_orm_url : Text → Text
env_orm_url id = codes "CLOUDCC_ORM_" ++ env_var id ++ codes "_URL"

unfoldable pub env_orm_secret_arn : Text → Text
env_orm_secret_arn id = codes "CLOUDCC_ORM_" ++ env_var id ++ codes "_SECRET_ARN"

unfoldable pub env_redis_endpoint : Text → Text
env_redis_endpoint id = codes "CLOUDCC_REDIS_" ++ env_var id ++ codes "_ENDPOINT"

unfoldable pub env_redis_port : Text → Text
env_redis_port id = codes "CLOUDCC_REDIS_" ++ env_var id ++ codes "_PORT"

unfoldable pub env_redis_tls : Text → Text
env_redis_tls id = codes "CLOUDCC_REDIS_" ++ env_var id ++ codes "_TLS"

unfoldable pub env_topic_arn : Text → Text
env_topic_arn id = codes "CLOUDCC_TOPIC_" ++ env_var id ++ codes "_ARN"

unfoldable pub env_topic_url : Text → Text
env_topic_url id = codes "CLOUDCC_TOPIC_" ++ env_var id ++ codes "_URL"

unfoldable pub env_topic_backing : Text → Text
env_topic_backing id = codes "CLOUDCC_TOPIC_" ++ env_var id ++ codes "_BACKING"

unfoldable pub env_unit_function : Text → Text
env_unit_function id = codes "CLOUDCC_UNIT_" ++ env_var id ++ codes "_FUNCTION"

unfoldable pub env_config : Text → Text
env_config id = codes "CLOUDCC_CONFIG_" ++ env_var id

unfoldable pub env_gateway_url : Text → Text
env_gateway_url id = codes "CLOUDCC_GATEWAY_" ++ env_var id ++ codes "_URL"

unfoldable pub env_static_bucket : Text → Text
env_static_bucket id = codes "CLOUDCC_STATIC_" ++ env_var id ++ codes "_BUCKET"

unfoldable pub env_static_url : Text → Text
env_static_url id = codes "CLOUDCC_STATIC_" ++ env_var id ++ codes "_URL"

unfoldable pub env_ecr_repo : Text → Text
env_ecr_repo id = codes "CLOUDCC_ECR_" ++ env_var id ++ codes "_URL"

unfoldable pub env_cluster_endpoint : Text → Text
env_cluster_endpoint id = codes "CLOUDCC_CLUSTER_" ++ env_var id ++ codes "_ENDPOINT"

abbrev pub is_env_rune : ℕ → Bool
is_env_rune c = is_upper c || is_digit c || c == b'_'

abbrev pub IsEnvName : Text → Type 0
IsEnvName s = All (λ c. is_env_rune c ≡ true) s

-- All the names that an id has.
abbrev pub env_names : Text → List Text
env_names id =
    env_kv_table id
    ∷ env_fs_bucket id
    ∷ env_secret_arn id
    ∷ env_orm_url id
    ∷ env_orm_secret_arn id
    ∷ env_redis_endpoint id
    ∷ env_redis_port id
    ∷ env_redis_tls id
    ∷ env_topic_arn id
    ∷ env_topic_url id
    ∷ env_topic_backing id
    ∷ env_unit_function id
    ∷ env_config id
    ∷ env_gateway_url id
    ∷ env_static_bucket id
    ∷ env_static_url id
    ∷ env_ecr_repo id
    ∷ env_cluster_endpoint id
    ∷ []

abbrev all_env : Text → Bool
all_env [] = true
all_env (c ∷ s) = is_env_rune c && all_env s

all_env-All : (s : Text) → all_env s ≡ true → IsEnvName s
all_env-All [] h = tt
all_env-All (c ∷ s) h = (ground arith, all_env-All s (ground arith))

env_char_lem : (c : ℕ) → is_env_rune (env_char c) ≡ true
unfolding env_char
env_char_lem c = ground arith

env_var-IsEnvName : (id : Text) → IsEnvName (env_var id)
unfolding env_var
env_var-IsEnvName [] = tt
env_var-IsEnvName (c ∷ id) = (env_char_lem c, env_var-IsEnvName id)

framed :
    (prefix id suffix : Text)
    → all_env prefix ≡ true
    → all_env suffix ≡ true
    → IsEnvName (prefix ++ env_var id ++ suffix)
framed prefix id suffix p s =
    All-append (λ c. is_env_rune c ≡ true) (prefix ++ env_var id) suffix
      (All-append (λ c. is_env_rune c ≡ true) prefix (env_var id) (all_env-All prefix p)
        (env_var-IsEnvName id))
      (all_env-All suffix s)

-- Whatever the id is, each of its environment variables has a name of capital letters, digits and underscores.
pub env_names-IsEnvName : (id : Text) → All IsEnvName (env_names id)
unfolding env_kv_table env_fs_bucket env_secret_arn env_orm_url env_orm_secret_arn
    env_redis_endpoint env_redis_port env_redis_tls env_topic_arn env_topic_url env_topic_backing
    env_unit_function env_config env_gateway_url env_static_bucket env_static_url env_ecr_repo
    env_cluster_endpoint
env_names-IsEnvName id =
    let f =
      λ (prefix suffix : String) (p : all_env (codes prefix) ≡ true)
          (s : all_env (codes suffix) ≡ true).
        framed (codes prefix) id (codes suffix) p s in
    (
      f "CLOUDCC_KV_" "_TABLE" refl refl,
      (
        f "CLOUDCC_FS_" "_BUCKET" refl refl,
        (
          f "CLOUDCC_SECRET_" "_ARN" refl refl,
          (
            f "CLOUDCC_ORM_" "_URL" refl refl,
            (
              f "CLOUDCC_ORM_" "_SECRET_ARN" refl refl,
              (
                f "CLOUDCC_REDIS_" "_ENDPOINT" refl refl,
                (
                  f "CLOUDCC_REDIS_" "_PORT" refl refl,
                  (
                    f "CLOUDCC_REDIS_" "_TLS" refl refl,
                    (
                      f "CLOUDCC_TOPIC_" "_ARN" refl refl,
                      (
                        f "CLOUDCC_TOPIC_" "_URL" refl refl,
                        (
                          f "CLOUDCC_TOPIC_" "_BACKING" refl refl,
                          (
                            f "CLOUDCC_UNIT_" "_FUNCTION" refl refl,
                            (
                              All-append (λ c. is_env_rune c ≡ true) (codes "CLOUDCC_CONFIG_")
                                  (env_var id) (all_env-All (codes "CLOUDCC_CONFIG_") refl)
                                  (env_var-IsEnvName id),
                              (
                                f "CLOUDCC_GATEWAY_" "_URL" refl refl,
                                (
                                  f "CLOUDCC_STATIC_" "_BUCKET" refl refl,
                                  (
                                    f "CLOUDCC_STATIC_" "_URL" refl refl,
                                    (
                                      f "CLOUDCC_ECR_" "_URL" refl refl,
                                      (f "CLOUDCC_CLUSTER_" "_ENDPOINT" refl refl, tt),
                                    ),
                                  ),
                                ),
                              ),
                            ),
                          ),
                        ),
                      ),
                    ),
                  ),
                ),
              ),
            ),
          ),
        ),
      ),
    )

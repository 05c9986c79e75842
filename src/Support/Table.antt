-- ===== src/Support/Table.antt =====
-- internal/provider/aws/support.go: the table of types and the questions to it. A Go map is an association list.
use cloudcc.Base.{
  Bool, true, false, ◌||◌, none, some, List, [], ◌∷◌, Text, codes, str_eq, fetch, dict_keys,
  sort_strings, if◌then◌else◌,
}
use cloudcc.Config.Kind
use cloudcc.Config.Check.{type_function, type_container}

pub data Level : Type 0 where
  unknown not_yet_supported supported : Level

abbrev pub type_support : List (Text × List (Text × Level))
type_support =
    (Kind.execution_unit, (type_function, supported) ∷ (type_container, supported) ∷ [])
    ∷ (Kind.expose, (codes "apigateway", supported) ∷ (codes "alb", supported) ∷ [])
    ∷ (Kind.persist_kv, (codes "dynamodb", supported) ∷ [])
    ∷ (Kind.persist_fs, (codes "s3", supported) ∷ [])
    ∷ (Kind.persist_secret, (codes "secretsmanager", supported) ∷ [])
    ∷ (
      Kind.persist_orm,
      (codes "rds_postgres", supported)
          ∷ (codes "rds_mysql", supported)
          ∷ (codes "cockroachdb_serverless", not_yet_supported)
          ∷ [],
    )
    ∷ (Kind.persist_redis, (codes "elasticache", supported) ∷ (codes "memorydb", supported) ∷ [])
    ∷ (
      Kind.pubsub,
      (codes "sns", supported)
          ∷ (codes "sqs", supported)
          ∷ (codes "sns_fifo", not_yet_supported)
          ∷ (codes "sqs_fifo", not_yet_supported)
          ∷ (codes "kinesis", not_yet_supported)
          ∷ [],
    )
    ∷ (Kind.static_unit, (codes "s3", supported) ∷ (codes "cloudfront", supported) ∷ [])
    ∷ (Kind.config, [])
    ∷ (
      Kind.logging,
      (codes "cloudwatch", supported)
          ∷ (codes "datadog", not_yet_supported)
          ∷ (codes "honeycomb", not_yet_supported)
          ∷ [],
    )
    ∷ []

-- A map's value, the zero value where the key is missing.
abbrev pub level_in : List (Text × Level) → Text → Level
level_in types type = elim (fetch type types) [ none ↦ unknown | some l ↦ l ]

abbrev pub is_supported : Level → Bool
is_supported unknown = false
is_supported not_yet_supported = false
is_supported supported = true

-- `Support`, for a capability that the table has.
abbrev pub support_of : List (Text × Level) → Text → Level
support_of [] type = supported
support_of (t ∷ types) type = level_in (t ∷ types) type

unfoldable pub support : Text → Text → Level
unfolding fetch
support kind type = elim (fetch kind type_support) [
  | none ↦ unknown
  | some types ↦ support_of types type
]

abbrev pub types_of : Text → List (Text × Level)
types_of kind = elim (fetch kind type_support) [ none ↦ [] | some types ↦ types ]

unfoldable pub working : List (Text × Level) → List Text
working [] = []
working ((type, level) ∷ types) =
    let rest = working types in if is_supported level then type ∷ rest else rest

unfoldable pub supported_types : Text → List Text
unfolding working fetch sort_strings
supported_types kind = sort_strings (working (types_of kind))

unfoldable pub all_types : Text → List Text
unfolding fetch sort_strings
all_types kind = sort_strings (dict_keys (types_of kind))

-- The cases of `NeedsVPC`.
abbrev pub is_private : Text → Bool
is_private t =
    str_eq t type_container
    || str_eq t (codes "rds_postgres")
    || str_eq t (codes "elasticache")
    || str_eq t (codes "memorydb")
    || str_eq t (codes "alb")

unfoldable pub needs_vpc : List Text → Bool
needs_vpc [] = false
needs_vpc (t ∷ types) = let rest = needs_vpc types in if is_private t then true else rest

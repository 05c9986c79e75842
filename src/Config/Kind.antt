-- ===== src/Config/Kind.antt =====
-- internal/config/config.go: the capability kinds.
use cloudcc.Base.{Bool, List, [], ◌∷◌, Text, codes, elem, str_eq, has_prefix}

abbrev pub execution_unit : Text
execution_unit = codes "execution_unit"

abbrev pub expose : Text
expose = codes "expose"

abbrev pub persist_kv : Text
persist_kv = codes "persist_kv"

abbrev pub persist_fs : Text
persist_fs = codes "persist_fs"

abbrev pub persist_secret : Text
persist_secret = codes "persist_secret"

abbrev pub persist_orm : Text
persist_orm = codes "persist_orm"

abbrev pub persist_redis : Text
persist_redis = codes "persist_redis"

abbrev pub pubsub : Text
pubsub = codes "pubsub"

abbrev pub static_unit : Text
static_unit = codes "static_unit"

abbrev pub config : Text
config = codes "config"

abbrev pub logging : Text
logging = codes "logging"

abbrev pub kinds : List Text
kinds =
    config ∷ execution_unit ∷ expose ∷ persist_fs ∷ persist_kv ∷ persist_orm ∷ persist_redis
    ∷ persist_secret ∷ logging ∷ pubsub ∷ static_unit ∷ []

unfoldable pub is_kind : Text → Bool
unfolding elem str_eq
is_kind name = elem name kinds

unfoldable pub is_persist_kind : Text → Bool
unfolding has_prefix
is_persist_kind kind = has_prefix kind (codes "persist_")

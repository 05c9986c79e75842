-- ===== src/Config/App.antt =====
-- internal/config/config.go and load.go: the type `App`, its sections and layers.
use cloudcc.Base.{
  ℕ, Bool, false, Option, none, some, List, [], ◌∷◌, Text, str_eq, if◌then◌else◌, put, fetch, codes,
  not,
}
use cloudcc.Config.Kind
use cloudcc.Config.Kind.{is_persist_kind}
use cloudcc.Base.Int.{pos, is_zero}
use cloudcc.Config.Value.{Entries, deep_merge}
use cloudcc.Config.Resource.{ResourceConfig, blank, merge}

pub record KindDefault : Type 0 where
  pub resource : ResourceConfig
  pub by_type : List (Text × ResourceConfig)

abbrev pub Section : Type 0
Section = List (Text × ResourceConfig)

pub record App : Type 0 where
  pub app : Text
  pub provider : Text
  pub out_dir : Text
  pub defaults : List (Text × KindDefault)
  pub execution_units : Section
  pub exposed : Section
  pub persisted : Section
  pub pubsub : Section
  pub static_units : Section
  pub config_vars : Section
  pub logging : ResourceConfig
  pub pulumi_params : Option Entries

-- The switch of `section` and `setSection`.
pub data Slot : Type 0 where
  units gateways topics sites vars stores nowhere : Slot

unfoldable pub slot : Text → Slot
unfolding str_eq is_persist_kind
slot kind =
    if str_eq kind Kind.execution_unit
    then units
    else if str_eq kind Kind.expose
    then gateways
    else if str_eq kind Kind.pubsub
    then topics
    else if str_eq kind Kind.static_unit
    then sites
    else if str_eq kind Kind.config
    then vars
    else if is_persist_kind kind
    then stores
    else nowhere

abbrev pub section_at : Slot → App → Section
section_at units a = a.execution_units
section_at gateways a = a.exposed
section_at topics a = a.pubsub
section_at sites a = a.static_units
section_at vars a = a.config_vars
section_at stores a = a.persisted
section_at nowhere a = []

abbrev pub set_section_at : Slot → Text → ResourceConfig → App → App
set_section_at units id rc a = record a { execution_units = put id rc a.execution_units }
set_section_at gateways id rc a = record a { exposed = put id rc a.exposed }
set_section_at topics id rc a = record a { pubsub = put id rc a.pubsub }
set_section_at sites id rc a = record a { static_units = put id rc a.static_units }
set_section_at vars id rc a = record a { config_vars = put id rc a.config_vars }
set_section_at stores id rc a = record a { persisted = put id rc a.persisted }
set_section_at nowhere id rc a = a

unfoldable pub section : App → Text → Section
unfolding slot
section a kind = section_at (slot kind) a

-- `Record` and `setSection`.
unfoldable pub set_section : App → Text → Text → ResourceConfig → App
unfolding slot put
set_section a kind id rc = set_section_at (slot kind) id rc a

unfoldable pub record_config : App → Text → Text → ResourceConfig → App
unfolding set_section
record_config a kind id rc = set_section a kind id rc

-- `a.Defaults[kind]`, the zero value where the kind is absent.
unfoldable pub default_of : App → Text → KindDefault
unfolding fetch
default_of a kind = elim (fetch kind a.defaults) [
  | none ↦ record { resource = blank; by_type = [] }
  | some d ↦ d
]

-- The layers of `Lookup`, from the default of the kind and the explicit entry, if there is one.
abbrev pub chosen_type : ResourceConfig → Option ResourceConfig → Text
chosen_type base none = base.type
chosen_type base (some explicit) = elim explicit.type [ [] ↦ base.type | c ∷ t ↦ c ∷ t ]

-- `if typ != "" { if byType, ok := def.ByType[typ]; ok { out = out.Merge(byType) } }`.
unfoldable pub over_type : KindDefault → Text → ResourceConfig
unfolding fetch merge
over_type def [] = def.resource
over_type def (c ∷ t) = elim (fetch (c ∷ t) def.by_type) [
  | none ↦ def.resource
  | some by_type ↦ merge def.resource by_type
]

unfoldable pub over_explicit : ResourceConfig → Option ResourceConfig → ResourceConfig
unfolding merge
over_explicit out none = out
over_explicit out (some explicit) = merge out explicit

unfoldable pub resolve : KindDefault → Option ResourceConfig → ResourceConfig
unfolding over_type over_explicit
resolve def explicit =
    let type = chosen_type def.resource explicit in
    record (over_explicit (over_type def type) explicit) { type = type }

unfoldable pub lookup : App → Text → Text → ResourceConfig
unfolding default_of section fetch resolve
lookup a kind id = resolve (default_of a kind) (fetch id (section a kind))

unfoldable pub has_explicit_type : App → Text → Text → Bool
unfolding section fetch
has_explicit_type a kind id = elim (fetch id (section a kind)) [
  | none ↦ false
  | some entry ↦ not (str_eq entry.type [])
]

abbrev pub default_log_retention_days : ℕ
default_log_retention_days = 14

unfoldable pub log_destination : App → ResourceConfig
unfolding default_of merge
log_destination a =
    let out = merge (default_of a Kind.logging).resource a.logging in
    if is_zero out.retention_days
    then record out { retention_days = pos default_log_retention_days }
    else out

unfoldable pub all_pulumi_params : App → ResourceConfig → Option Entries
unfolding deep_merge
all_pulumi_params a rc = deep_merge a.pulumi_params rc.pulumi_params

-- `ForOutput` changes only where the output goes.
unfoldable pub for_output : App → App
for_output a = record a { out_dir = codes "." }

-- The defaults that the program starts from.
abbrev kd : Text → KindDefault
kd type = record { resource = record blank { type = type }; by_type = [] }

abbrev pub builtin_defaults : List (Text × KindDefault)
builtin_defaults =
    (Kind.execution_unit, kd (codes "function"))
    ∷ (Kind.expose, kd (codes "apigateway"))
    ∷ (Kind.persist_kv, kd (codes "dynamodb"))
    ∷ (Kind.persist_fs, kd (codes "s3"))
    ∷ (Kind.persist_secret, kd (codes "secretsmanager"))
    ∷ (Kind.persist_orm, kd (codes "rds_postgres"))
    ∷ (Kind.persist_redis, kd (codes "elasticache"))
    ∷ (Kind.pubsub, kd (codes "sns"))
    ∷ (Kind.static_unit, kd (codes "s3"))
    ∷ (Kind.config, kd [])
    ∷ (Kind.logging, kd (codes "cloudwatch"))
    ∷ []

abbrev pub new : App
new = record {
  app = [];
  provider = codes "aws";
  out_dir = codes "compiled";
  defaults = builtin_defaults;
  execution_units = [];
  exposed = [];
  persisted = [];
  pubsub = [];
  static_units = [];
  config_vars = [];
  logging = blank;
  pulumi_params = none;
}

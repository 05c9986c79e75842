-- ===== src/Config/Load.antt =====
-- internal/config/load.go: `Load`, which layers a file over the defaults. `decode` is a parameter: it is the decoder of
-- the YAML library, which gives a message or the configuration that stands in the file. A map is read in the order of
-- its list; the order decides at most which of several errors is told.
use cloudcc.Base.{Option, none, some, List, [], ◌∷◌, Text, codes, put, fetch, dict_keys}
use cloudcc.Config.Kind
use cloudcc.Config.Value.{deep_merge}
use cloudcc.Config.Resource.{ResourceConfig, blank, merge}
use cloudcc.Config.App.{App, KindDefault, Section, new}
use cloudcc.Config.Check.{Error, check_compute_type, check_platform}

abbrev pub or_blank : Option ResourceConfig → ResourceConfig
or_blank none = blank
or_blank (some rc) = rc

-- `out[k] = out[k].Merge(v)` for each of `over`; a missing entry is the zero value.
unfoldable pub merge_section : Section → Section → Section
merge_section base [] = base
merge_section base ((k, rc) ∷ over) =
    let out = merge_section base over in put k (merge (or_blank (fetch k out)) rc) out

abbrev pub or_no_default : Option KindDefault → KindDefault
or_no_default none = record { resource = blank; by_type = [] }
or_no_default (some d) = d

unfoldable pub merge_default : KindDefault → KindDefault → KindDefault
unfolding merge merge_section
merge_default base kd = record {
  resource = merge base.resource kd.resource;
  by_type = merge_section base.by_type kd.by_type;
}

unfoldable pub merge_defaults :
    List (Text × KindDefault) → List (Text × KindDefault) → List (Text × KindDefault)
unfolding merge_default
merge_defaults base [] = base
merge_defaults base ((kind, kd) ∷ over) =
    let out = merge_defaults base over in
    put kind (merge_default (or_no_default (fetch kind out)) kd) out

abbrev pub stronger_text : Text → Text → Text
stronger_text base [] = base
stronger_text base (c ∷ s) = c ∷ s

unfoldable pub merge_file : App → App → App
unfolding merge_defaults merge_section merge deep_merge
merge_file a f = record {
  app = stronger_text a.app f.app;
  provider = stronger_text a.provider f.provider;
  out_dir = stronger_text a.out_dir f.out_dir;
  defaults = merge_defaults a.defaults f.defaults;
  execution_units = merge_section a.execution_units f.execution_units;
  exposed = merge_section a.exposed f.exposed;
  persisted = merge_section a.persisted f.persisted;
  pubsub = merge_section a.pubsub f.pubsub;
  static_units = merge_section a.static_units f.static_units;
  config_vars = merge_section a.config_vars f.config_vars;
  logging = merge a.logging f.logging;
  pulumi_params = deep_merge a.pulumi_params f.pulumi_params;
}

-- What `os.ReadFile` finds.
pub data File : Type 0 where
  absent unreadable : File
  contents : Text → File

pub data Decoded : Type 0 where
  malformed : Text → Decoded
  decoded : App → Decoded

pub data Loaded : Type 0 where
  loaded : App → Loaded
  read_error : Loaded
  parse_error : Text → Loaded
  rejected : Error → Loaded

unfoldable pub check_units : Section → Option Error
check_units [] = none
check_units ((id, unit) ∷ units) =
    let rest = check_units units in
    elim (check_compute_type id unit.type) [
      | some e ↦ some e
      | none ↦ elim (check_platform id unit.type unit.platform) [ some e ↦ some e | none ↦ rest ]
    ]

unfoldable pub check_types : List Text → Option Error
check_types [] = none
check_types (type ∷ types) =
    let rest = check_types types in
    elim (check_compute_type (codes "defaults.by_type") type) [ some e ↦ some e | none ↦ rest ]

unfoldable pub check_unit_defaults : Option KindDefault → Option Error
unfolding check_types
check_unit_defaults none = none
check_unit_defaults (some kd) = elim (check_compute_type (codes "defaults") kd.resource.type) [
  | some e ↦ some e
  | none ↦ check_types (dict_keys kd.by_type)
]

-- The checks and the merge, of a file that was decoded.
unfoldable pub accept : App → Loaded
accept f = elim (check_units f.execution_units) [
  | some e ↦ rejected e
  | none ↦ elim (check_unit_defaults (fetch Kind.execution_unit f.defaults)) [
    | some e ↦ rejected e
    | none ↦ loaded (merge_file new f)
  ]
]

unfoldable pub load : (Text → Decoded) → File → Loaded
load decode absent = loaded new
load decode unreadable = read_error
load decode (contents bytes) = elim (decode bytes) [
  | malformed e ↦ parse_error e
  | decoded f ↦ accept f
]

-- ===== src/Config/Tests.antt =====
-- internal/config on small configurations.
use cloudcc.Base.{
  elem, ◌≡◌, refl, true, false, none, some, List, [], ◌∷◌, Text, codes, fetch, ◌↔◌, ◌⊎◌, str_eq,
  byte_len, if◌then◌else◌, IsDistinct, dict_keys, Bool-cases, subst, inl, inr, arith,
}
use cloudcc.Base.Int.{pos}
use cloudcc.Config.Kind
use cloudcc.Config.Value.{
  Value, text, other, block, Entries, end, entry, deep_merge, get_entry, IsMap,
}
use cloudcc.Config.Resource.{ResourceConfig, blank, merge}
use cloudcc.Config.App.{App, KindDefault, new, lookup, default_of, section, record_config, slot}
use cloudcc.Config.Check.{
  validate_app_name, validate_app_name_iff, IsAppName, validate, validate_iff, IsValid,
  check_platform, check_compute_type, renamed_type,
}
use cloudcc.Config.Paths.{read, is_block, is_silent, deep_merge_paths}
use cloudcc.Config.Maps.{AreMap}
use cloudcc.Config.Copies.{IsWritten, args_of}
use cloudcc.Config.Layers.{
  layered, AreWritten, IsLayered, type_layer, explicit_layer, lookup-IsLayered,
}
use cloudcc.Config.Load.{
  Decoded, decoded, malformed, load, loaded, contents, absent, accept, check_units,
  check_unit_defaults, check_types, merge_file, merge_section,
}
use cloudcc.Config.Merged.{HasMaps, IsMerged, fetch-merge_section}
use cloudcc.Config.Accepted.{load_iff, IsAcceptable}

abbrev size : Value → Value → Entries
size memory zone = entry (codes "memory") memory (entry (codes "zone") zone end)

abbrev weaker_block : Entries
weaker_block = entry (codes "unit") (block (size (other (codes "128")) (text (codes "a")))) end

abbrev stronger_block : Entries
stronger_block = entry (codes "unit") (block (entry (codes "memory") (other (codes "256")) end)) end

config_tests : Unit {0}
unfolding deep_merge lookup record_config validate validate_app_name check_platform
config_tests = tt

merge_keeps_sibling :
    deep_merge (some weaker_block) (some stronger_block)
    ≡ some (entry (codes "unit") (block (size (other (codes "256")) (text (codes "a")))) end)
unfolding config_tests str_eq
merge_keeps_sibling = refl

deep_merge_paths_example :
    (m : Entries) × (deep_merge (some weaker_block) (some stronger_block) ≡ some m)
    × ((ks : List Text) (leaf : Value)
        → is_block leaf ≡ false
        → read ks (block stronger_block) ≡ some leaf
        → read ks (block m) ≡ some leaf)
    × ((ks : List Text)
        → is_silent ks (block stronger_block) ≡ true
        → read ks (block m) ≡ read ks (block weaker_block))
unfolding get_entry
deep_merge_paths_example = deep_merge_paths weaker_block stronger_block (refl, (refl, tt, tt), tt)

-- A unit with an explicit memory, of a type that has a timeout.
abbrev worker : ResourceConfig
worker = record blank {
  type = codes "container";
  memory = pos 512;
  provider_args = (codes "function", some stronger_block) ∷ [];
  pulumi_params = some stronger_block;
}

abbrev shop_default : KindDefault
shop_default = record {
  resource = record blank {
    type = codes "function";
    memory = pos 128;
    timeout = pos 30;
    provider_args = (codes "function", some weaker_block) ∷ [];
    pulumi_params = some weaker_block;
  };
  by_type = (codes "container", record blank { timeout = pos 60; memory = pos 256 }) ∷ [];
}

abbrev shop : App
shop = record new {
  app = codes "shop";
  defaults = (Kind.execution_unit, shop_default) ∷ [];
  execution_units = (codes "worker", worker) ∷ [];
}

lookup_worker : (lookup shop Kind.execution_unit (codes "worker")).memory ≡ pos 512
unfolding config_tests str_eq fetch
lookup_worker = refl

lookup_worker_timeout : (lookup shop Kind.execution_unit (codes "worker")).timeout ≡ pos 60
unfolding config_tests str_eq fetch
lookup_worker_timeout = refl

shop_types : (type : Text) → IsWritten (type_layer shop_default type)
unfolding fetch
shop_types [] = record { params = tt; args = λ k. tt; resources = tt }
shop_types (c ∷ t) = elim (Bool-cases (str_eq (c ∷ t) (codes "container"))) [
  | inl y ↦ rw (type_layer, y) (record { params = tt; args = λ k. tt; resources = tt })
  | inr n ↦ rw (type_layer, n) (record { params = tt; args = λ k. tt; resources = tt })
]

one_block :
    (es : Entries) (k : Text) → IsMap es → AreMap (args_of k ((codes "function", some es) ∷ []))
unfolding fetch
one_block es k m = elim (Bool-cases (str_eq k (codes "function"))) [
  | inl y ↦ rw y m
  | inr n ↦ rw n tt
]

worker_layers :
    AreWritten
      (default_of shop Kind.execution_unit)
      (fetch (codes "worker") (section shop Kind.execution_unit))
unfolding default_of section slot fetch str_eq get_entry elem
worker_layers = record {
  default = record {
    params = (refl, (refl, tt, (refl, tt, tt)), tt);
    args = λ k. one_block weaker_block k (refl, (refl, tt, (refl, tt, tt)), tt);
    resources = (refl, tt);
  };
  by_type = shop_types;
  explicit = record {
    params = (refl, (refl, tt, tt), tt);
    args = λ k. one_block stronger_block k (refl, (refl, tt, tt), tt);
    resources = (refl, tt);
  };
}

lookup-IsLayered_example :
    let def = default_of shop Kind.execution_unit in
    let x = explicit_layer (fetch (codes "worker") (section shop Kind.execution_unit)) in
    let type = layered def.resource.type [] x.type in
    IsLayered
      (lookup shop Kind.execution_unit (codes "worker"))
      def.resource
      (type_layer def type)
      x
      type
lookup-IsLayered_example = lookup-IsLayered shop Kind.execution_unit (codes "worker") worker_layers

name_example : validate_app_name (codes "shop-1") ≡ none
unfolding config_tests byte_len
name_example = refl

validate_app_name_iff_example :
    (validate_app_name (codes "shop-1") ≡ none) ↔ IsAppName (codes "shop-1")
validate_app_name_iff_example = validate_app_name_iff (codes "shop-1")

validate_iff_example : (validate shop ≡ none) ↔ IsValid shop
validate_iff_example = validate_iff shop

-- A decoder that knows one file.
abbrev decode_shop : Text → Decoded
decode_shop bytes = if str_eq bytes (codes "shop") then decoded shop else malformed bytes

load-shop : load decode_shop (contents (codes "shop")) ≡ loaded (merge_file new shop)
unfolding load accept check_units check_unit_defaults check_types check_compute_type check_platform
    renamed_type str_eq fetch
load-shop = refl

shop-HasMaps : HasMaps shop
unfolding elem
shop-HasMaps = record {
  kinds = (refl, tt);
  types = λ k kd e. elim (Bool-cases (str_eq k Kind.execution_unit)) [
    | inl y ↦
        let same : shop_default ≡ kd = unfold fetch in ground (arith, y, e) in
        subst (λ d. IsDistinct (dict_keys d.by_type)) same (refl, tt)
    | inr n ↦ absurd (unfold fetch in ground (arith, n, e))
  ];
  units = (refl, tt);
  gateways = tt;
  stores = tt;
  topics = tt;
  sites = tt;
  vars = tt;
}

decode_shop-HasMaps : (bytes : Text) (f : App) → decode_shop bytes ≡ decoded f → HasMaps f
decode_shop-HasMaps bytes f h = elim (Bool-cases (str_eq bytes (codes "shop"))) [
  | inl y ↦ let same : shop ≡ f = ground (arith, y, h) in subst HasMaps same shop-HasMaps
  | inr n ↦ absurd (ground (arith, n, h))
]

load_iff_example : (load decode_shop (contents (codes "shop")) ≡ loaded (merge_file new shop)) ↔ (
    ((contents (codes "shop") ≡ absent) × (merge_file new shop ≡ new))
    ⊎ ((bytes : Text) × (f : App) × (contents (codes "shop") ≡ contents bytes)
        × (decode_shop bytes ≡ decoded f)
        × IsAcceptable f
        × (merge_file new shop ≡ merge_file new f)
        × IsMerged f (merge_file new shop)))
load_iff_example =
    load_iff decode_shop decode_shop-HasMaps (contents (codes "shop")) (merge_file new shop)

fetch-merge_section_example :
    fetch (codes "worker") (merge_section shop.execution_units ((codes "worker", blank) ∷ []))
    ≡ some (merge worker blank)
unfolding fetch str_eq
fetch-merge_section_example =
    fetch-merge_section (codes "worker") shop.execution_units ((codes "worker", blank) ∷ [])
      (unfold elem in refl, tt)

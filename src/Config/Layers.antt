-- ===== src/Config/Layers.antt =====
-- internal/config/config.go: what `Lookup` answers.
use cloudcc.Base.{
  ◌≡◌, refl, true, Option, none, some, List, [], ◌∷◌, Text, if◌then◌else◌, arith, ◌∙◌, fetch,
  fetch-put, ap, subst,
}
use cloudcc.Config.Overlay.{IsLaid, none-IsLaid, deep_merge-IsLaid, IsStacked, laid-IsStacked}
use cloudcc.Config.Copies.{args_of, args-IsLaid, IsWritten, merge-IsWritten}
use cloudcc.Base.Int.{ℤ, is_zero}
use cloudcc.Config.Resource.{ResourceConfig, blank, merge, stronger, stronger_int, merge_string_map}
use cloudcc.Config.App.{
  App, KindDefault, section, default_of, chosen_type, over_type, over_explicit, resolve, lookup,
}

pub fetch-merge_string_map :
    (k : Text) (base over : List (Text × Text))
    → fetch k (merge_string_map base over)
      ≡ elim (fetch k over) [ some v ↦ some v | none ↦ fetch k base ]
unfolding merge_string_map fetch
fetch-merge_string_map k base [] = refl
fetch-merge_string_map k base ((j, v) ∷ over) =
    ground (arith, fetch-put k j v (merge_string_map base over), fetch-merge_string_map k base over)

-- The layers of a declaration: an absent one is blank.
abbrev pub type_layer : KindDefault → Text → ResourceConfig
type_layer def [] = blank
type_layer def (c ∷ t) = elim (fetch (c ∷ t) def.by_type) [ none ↦ blank | some rc ↦ rc ]

abbrev pub explicit_layer : Option ResourceConfig → ResourceConfig
explicit_layer none = blank
explicit_layer (some rc) = rc

-- One setting from three layers, the strongest last: it is taken from the strongest that has it.
abbrev pub layered : Text → Text → Text → Text
layered d t (c ∷ e) = c ∷ e
layered d (c ∷ t) [] = c ∷ t
layered d [] [] = d

-- The same for a number, which is not given where it is zero.
abbrev pub layered_int : ℤ → ℤ → ℤ → ℤ
layered_int d t e = if is_zero e then (if is_zero t then d else t) else e

twice : {y : Text} (d t e : Text) → y ≡ stronger d t → stronger y e ≡ layered d t e
twice d t (c ∷ e) h = refl
twice d (c ∷ t) [] h = h
twice d [] [] h = h

twice_int : {y : ℤ} (d t e : ℤ) → y ≡ stronger_int d t → stronger_int y e ≡ layered_int d t e
twice_int d t e h = ap (λ y. stronger_int y e) h

-- The type that decides the middle layer: the explicit one, else that of the default.
chosen-layered :
    (base : ResourceConfig) (e : Option ResourceConfig)
    → chosen_type base e ≡ layered base.type [] (explicit_layer e).type
chosen-layered base none = refl
chosen-layered base (some rc) = typed rc.type
  where
    typed : (t : Text) → elim t [ [] ↦ base.type | c ∷ u ↦ c ∷ u ] ≡ layered base.type [] t
    typed [] = refl
    typed (c ∷ u) = refl

-- The configuration `rc` is what the three layers determine, with the type given.
pub record IsLayered (rc d t e : ResourceConfig) (type : Text) : Type 0 where
  pub type_chosen : rc.type ≡ type
  pub secret_any : rc.secret ≡ (if e.secret then true else if t.secret then true else d.secret)
  pub value_layered : rc.value ≡ layered d.value t.value e.value
  pub static_files_layered : rc.static_files ≡ layered d.static_files t.static_files e.static_files
  pub shared_files_layered : rc.shared_files ≡ layered d.shared_files t.shared_files e.shared_files
  pub index_document_layered :
      rc.index_document ≡ layered d.index_document t.index_document e.index_document
  pub platform_layered : rc.platform ≡ layered d.platform t.platform e.platform
  pub retention_days_layered :
      rc.retention_days ≡ layered_int d.retention_days t.retention_days e.retention_days
  pub memory_layered : rc.memory ≡ layered_int d.memory t.memory e.memory
  pub timeout_layered : rc.timeout ≡ layered_int d.timeout t.timeout e.timeout
  pub environment_layered :
      (k : Text)
      → fetch k rc.environment_variables ≡ elim (fetch k e.environment_variables) [
        | some v ↦ some v
        | none ↦ elim (fetch k t.environment_variables) [
          | some v ↦ some v
          | none ↦ fetch k d.environment_variables
        ]
      ]
  pub params_layered : IsStacked rc.pulumi_params d.pulumi_params t.pulumi_params e.pulumi_params
  pub args_layered :
      (k : Text)
      → IsStacked
          (args_of k rc.provider_args)
          (args_of k d.provider_args)
          (args_of k t.provider_args)
          (args_of k e.provider_args)

-- The configuration `rc` is `base` with the settings of `over` on top, the type left aside.
record IsOver (rc base over : ResourceConfig) : Type 0 where
  secret_over : rc.secret ≡ (if over.secret then true else base.secret)
  value_over : rc.value ≡ stronger base.value over.value
  static_files_over : rc.static_files ≡ stronger base.static_files over.static_files
  shared_files_over : rc.shared_files ≡ stronger base.shared_files over.shared_files
  index_document_over : rc.index_document ≡ stronger base.index_document over.index_document
  platform_over : rc.platform ≡ stronger base.platform over.platform
  retention_days_over : rc.retention_days ≡ stronger_int base.retention_days over.retention_days
  memory_over : rc.memory ≡ stronger_int base.memory over.memory
  timeout_over : rc.timeout ≡ stronger_int base.timeout over.timeout
  environment_over :
      (k : Text)
      → fetch k rc.environment_variables ≡ elim (fetch k over.environment_variables) [
        | some v ↦ some v
        | none ↦ fetch k base.environment_variables
      ]
  params_over : IsLaid rc.pulumi_params base.pulumi_params over.pulumi_params
  args_over :
      (k : Text)
      → IsLaid
          (args_of k rc.provider_args)
          (args_of k base.provider_args)
          (args_of k over.provider_args)
  written : IsWritten rc

merge-IsOver :
    (base over : ResourceConfig)
    → IsWritten base
    → IsWritten over
    → IsOver (merge base over) base over
unfolding merge
merge-IsOver base over b o = record {
  secret_over = refl;
  value_over = refl;
  static_files_over = refl;
  shared_files_over = refl;
  index_document_over = refl;
  platform_over = refl;
  retention_days_over = refl;
  memory_over = refl;
  timeout_over = refl;
  environment_over =
      λ k. fetch-merge_string_map k base.environment_variables over.environment_variables;
  params_over = deep_merge-IsLaid base.pulumi_params over.pulumi_params o.params;
  args_over =
      λ k. args-IsLaid k base.provider_args over.provider_args (b.args k) (o.args k) o.resources;
  written = merge-IsWritten base over b o;
}

blank-IsOver : (base : ResourceConfig) → IsWritten base → IsOver base base blank
unfolding fetch
blank-IsOver base b = record {
  secret_over = refl;
  value_over = refl;
  static_files_over = refl;
  shared_files_over = refl;
  index_document_over = refl;
  platform_over = refl;
  retention_days_over = refl;
  memory_over = refl;
  timeout_over = refl;
  environment_over = λ k. refl;
  params_over = none-IsLaid base.pulumi_params;
  args_over = λ k. none-IsLaid (args_of k base.provider_args);
  written = b;
}

-- The maps of the layers of a declaration have different keys.
pub record AreWritten (def : KindDefault) (e : Option ResourceConfig) : Type 0 where
  pub default : IsWritten def.resource
  pub by_type : (type : Text) → IsWritten (type_layer def type)
  pub explicit : IsWritten (explicit_layer e)

over_type-IsOver :
    (def : KindDefault) (type : Text)
    → IsWritten def.resource
    → IsWritten (type_layer def type)
    → IsOver (over_type def type) def.resource (type_layer def type)
unfolding over_type
over_type-IsOver def [] d w = blank-IsOver def.resource d
over_type-IsOver def (c ∷ t) d w = found (fetch (c ∷ t) def.by_type) w
  where
    found :
        (o : Option ResourceConfig)
        → IsWritten (elim o [ none ↦ blank | some rc ↦ rc ])
        → IsOver
            (elim o [ none ↦ def.resource | some rc ↦ merge def.resource rc ])
            def.resource
            (elim o [ none ↦ blank | some rc ↦ rc ])
    found none w = blank-IsOver def.resource d
    found (some rc) w = merge-IsOver def.resource rc d w

over_explicit-IsOver :
    (out : ResourceConfig) (e : Option ResourceConfig)
    → IsWritten out
    → IsWritten (explicit_layer e)
    → IsOver (over_explicit out e) out (explicit_layer e)
unfolding over_explicit
over_explicit-IsOver out none w x = blank-IsOver out w
over_explicit-IsOver out (some rc) w x = merge-IsOver out rc w x

pub resolve-IsWritten :
    (def : KindDefault) (e : Option ResourceConfig) → AreWritten def e → IsWritten (resolve def e)
unfolding resolve
resolve-IsWritten def e w =
    let type = chosen_type def.resource e in
    let t = over_type-IsOver def type w.default (w.by_type type) in
    let x = over_explicit-IsOver (over_type def type) e t.written w.explicit in
    record { params = x.written.params; args = x.written.args; resources = x.written.resources }

pub resolve-IsLayered :
    (def : KindDefault) (e : Option ResourceConfig)
    → AreWritten def e
    → let type = chosen_type def.resource e in
      IsLayered (resolve def e) def.resource (type_layer def type) (explicit_layer e) type
unfolding resolve
resolve-IsLayered def e w =
    let type = chosen_type def.resource e in
    let t = over_type-IsOver def type w.default (w.by_type type) in
    let x = over_explicit-IsOver (over_type def type) e t.written w.explicit in
    let d = def.resource in
    let m = type_layer def type in
    let s = explicit_layer e in
    record {
      type_chosen = refl;
      secret_any = ground (arith, t.secret_over, x.secret_over);
      value_layered = x.value_over ∙ twice d.value m.value s.value t.value_over;
      static_files_layered =
          x.static_files_over
          ∙ twice d.static_files m.static_files s.static_files t.static_files_over;
      shared_files_layered =
          x.shared_files_over
          ∙ twice d.shared_files m.shared_files s.shared_files t.shared_files_over;
      index_document_layered =
          x.index_document_over
          ∙ twice d.index_document m.index_document s.index_document t.index_document_over;
      platform_layered = x.platform_over ∙ twice d.platform m.platform s.platform t.platform_over;
      retention_days_layered =
          x.retention_days_over
          ∙ twice_int d.retention_days m.retention_days s.retention_days t.retention_days_over;
      memory_layered = x.memory_over ∙ twice_int d.memory m.memory s.memory t.memory_over;
      timeout_layered = x.timeout_over ∙ twice_int d.timeout m.timeout s.timeout t.timeout_over;
      environment_layered = λ k. ground (arith, t.environment_over k, x.environment_over k);
      params_layered =
          laid-IsStacked _ _ d.pulumi_params m.pulumi_params s.pulumi_params x.params_over
            t.params_over;
      args_layered = λ k.
          laid-IsStacked _ _ (args_of k d.provider_args) (args_of k m.provider_args)
            (args_of k s.provider_args) (x.args_over k) (t.args_over k);
    }

-- The maps of the layers have different keys. Then `Lookup` takes each setting from the strongest layer that has it: the explicit entry, then the entry
-- of the chosen type, then the default of the kind. The type is the explicit one if there is one. A secret
-- mark counts from any layer, environment variables are layered one by one, and in the parameters and in the arguments of each
-- resource, every value that is no block is taken from the strongest layer that has it, while the stronger ones say nothing at its path.
pub lookup-IsLayered :
    (a : App) (kind id : Text)
    → AreWritten (default_of a kind) (fetch id (section a kind))
    → let def = default_of a kind in
      let x = explicit_layer (fetch id (section a kind)) in
      let type = layered def.resource.type [] x.type in
      IsLayered (lookup a kind id) def.resource (type_layer def type) x type
unfolding lookup
lookup-IsLayered a kind id w =
    let def = default_of a kind in
    let e = fetch id (section a kind) in
    subst
      (λ type. IsLayered (resolve def e) def.resource (type_layer def type) (explicit_layer e) type)
      (chosen-layered def.resource e) (resolve-IsLayered def e w)

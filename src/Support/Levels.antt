-- ===== src/Support/Levels.antt =====
-- internal/provider/aws/support.go: how the questions to the table belong together.
use cloudcc.Base.{
  ◌≡◌, refl, ◌∙◌, ap, subst, sym, Bool, true, false, not, ◌&&◌, none, some, List, [], ◌∷◌, Text,
  codes, str_eq, str_eq_iff, elem, fetch, dict_keys, IsDistinct, elem-sort_strings, arith, ◌≢◌,
  Bool-cases, inl, inr, Option-cases, fetch-none,
}
use cloudcc.Config.Kind
use cloudcc.Topic.Select.{
  TopicRequirements, TopicChoice, chosen, select_topic_backing, choose_topic, topic_kinesis,
  topic_sns, topic_sns_fifo, topic_sqs, topic_sqs_fifo,
}
use cloudcc.Topic.Serves.{chosen_topic}
use cloudcc.Support.Table.{
  Level, unknown, not_yet_supported, supported, type_support, level_in, is_supported, support_of,
  support, types_of, working, supported_types, all_types,
}

-- Every capability's types are different.
AllDistinct : List (Text × List (Text × Level)) → Type 0
AllDistinct [] = Unit {0}
AllDistinct ((kind, types) ∷ rest) = IsDistinct (dict_keys types) × AllDistinct rest

fetch-IsDistinct :
    (kind : Text) (table : List (Text × List (Text × Level))) (types : List (Text × Level))
    → AllDistinct table
    → fetch kind table ≡ some types
    → IsDistinct (dict_keys types)
unfolding fetch AllDistinct
fetch-IsDistinct kind [] types h e = cc
fetch-IsDistinct kind ((k, ts) ∷ table) types h e = elim (Bool-cases (str_eq kind k)) [
  | inl here ↦
      let same : ts ≡ types = ground arith in subst (λ t. IsDistinct (dict_keys t)) same h.0
  | inr there ↦ fetch-IsDistinct kind table types h.1 (ground arith)
]

elem-working :
    (type : Text) (types : List (Text × Level))
    → IsDistinct (dict_keys types)
    → elem type (working types) ≡ is_supported (level_in types type)
unfolding working fetch elem
elem-working type [] h = refl
elem-working type ((t, l) ∷ types) h =
    ground (arith, elem-working type types h.1, h.0, str_eq_iff type t, fetch-none type types)

table-AllDistinct : AllDistinct type_support
unfolding AllDistinct elem str_eq
table-AllDistinct = (
  (refl, (refl, tt)),
  (
    (refl, (refl, tt)),
    (
      (refl, tt),
      (
        (refl, tt),
        (
          (refl, tt),
          (
            (refl, (refl, (refl, tt))),
            (
              (refl, (refl, tt)),
              (
                (refl, (refl, (refl, (refl, (refl, tt))))),
                ((refl, (refl, tt)), (tt, ((refl, (refl, (refl, tt))), tt))),
              ),
            ),
          ),
        ),
      ),
    ),
  ),
)

-- No row of the table holds the level of what is missing.
abbrev pub is_known : Level → Bool
is_known unknown = false
is_known not_yet_supported = true
is_known supported = true

all_known : List (Text × Level) → Bool
all_known [] = true
all_known ((type, level) ∷ types) = is_known level && all_known types

table_known : List (Text × List (Text × Level)) → Bool
table_known [] = true
table_known ((kind, types) ∷ rest) = all_known types && table_known rest

fetch-all_known :
    (kind : Text) (table : List (Text × List (Text × Level))) (types : List (Text × Level))
    → table_known table ≡ true
    → fetch kind table ≡ some types
    → all_known types ≡ true
unfolding fetch table_known
fetch-all_known kind [] types h e = cc
fetch-all_known kind ((k, ts) ∷ table) types h e =
    ground (arith, fetch-all_known kind table types, ap all_known {x = ts} {y = types})

elem-keys :
    (type : Text) (types : List (Text × Level))
    → all_known types ≡ true
    → elem type (dict_keys types) ≡ is_known (level_in types type)
unfolding all_known elem fetch
elem-keys type [] h = refl
elem-keys type ((t, l) ∷ types) h = ground (arith, elem-keys type types)

support-level :
    (kind type : Text) (types : List (Text × Level))
    → fetch kind type_support ≡ some types
    → types ≢ []
    → support kind type ≡ level_in types type
unfolding support
support-level kind type [] e n = absurd (n refl)
support-level kind type (t ∷ types) e n =
    ap (λ o. elim o [ none ↦ unknown | some ts ↦ support_of ts type ]) e

-- For a capability with types, `SupportedTypes` lists exactly the types that `Support` calls supported, and `AllTypes`
-- exactly those that it does not call unknown.
pub support_iff :
    (kind type : Text)
    → types_of kind ≢ []
    → (elem type (supported_types kind) ≡ is_supported (support kind type))
      × (elem type (all_types kind) ≡ is_known (support kind type))
unfolding supported_types all_types
support_iff kind type n = elim (Option-cases (fetch kind type_support)) [
  | inl e ↦ absurd (n (ap (λ o. elim o [ none ↦ [] | some types ↦ types ]) e))
  | inr (types, e) ↦
      let row : types_of kind ≡ types = ap (λ o. elim o [ none ↦ [] | some ts ↦ ts ]) e in
      let level = support-level kind type types e (λ z. n (row ∙ z)) in
      let distinct = fetch-IsDistinct kind type_support types table-AllDistinct e in
      let known =
        fetch-all_known kind type_support types (unfold table_known all_known in refl) e in
      (
        elem-sort_strings type (working (types_of kind))
            ∙ (ap (λ ts. elem type (working ts)) row
                ∙ (elem-working type types distinct ∙ ap is_supported (sym level))),
        elem-sort_strings type (dict_keys (types_of kind))
            ∙ (ap (λ ts. elem type (dict_keys ts)) row
                ∙ (elem-keys type types known ∙ ap is_known (sym level))),
      )
]

-- The level of each service that a topic can get.
topic_levels :
    (support Kind.pubsub topic_kinesis ≡ not_yet_supported)
    × (support Kind.pubsub topic_sns ≡ supported)
    × (support Kind.pubsub topic_sns_fifo ≡ not_yet_supported)
    × (support Kind.pubsub topic_sqs ≡ supported)
    × (support Kind.pubsub topic_sqs_fifo ≡ not_yet_supported)
unfolding support fetch str_eq
topic_levels = (refl, refl, refl, refl, refl)

-- The service that is selected for a topic is one that the provider knows; it is one that the provider can expand
-- exactly if the requirements ask neither for replay nor for an order.
pub select_topic_backing-support :
    (r : TopicRequirements) (c : TopicChoice)
    → select_topic_backing r ≡ chosen c
    → (support Kind.pubsub c.type ≢ unknown)
      × (is_supported (support Kind.pubsub c.type)
          ≡ (not r.replay && str_eq r.ordering (codes "none")))
select_topic_backing-support r c h =
    subst
      (λ c.
        (support Kind.pubsub c.type ≢ unknown)
        × (is_supported (support Kind.pubsub c.type)
            ≡ (not r.replay && str_eq r.ordering (codes "none"))))
      (chosen_topic r c h)
      (unfold choose_topic in (λ e. ground (arith, topic_levels), ground (arith, topic_levels)))

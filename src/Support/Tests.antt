-- ===== src/Support/Tests.antt =====
-- internal/provider/aws/support.go on rows of the table.
use cloudcc.Base.{
  ◌≡◌, refl, true, false, codes, [], ◌∷◌, elem, str_eq, fetch, sort_strings, str_lt, ◌≢◌, not, ◌&&◌,
}
use cloudcc.Config.Kind
use cloudcc.Support.Table.{
  unknown, supported, is_supported, support, supported_types, needs_vpc, working,
}
use cloudcc.Support.Levels.{select_topic_backing-support}
use cloudcc.Topic.Select.{
  default_topic_requirements, select_topic_backing, topic_sns, fan_out, validate_topic_requirements,
  choose_topic, fit, payload_limit, contains,
}

orm_types : supported_types Kind.persist_orm ≡ (codes "rds_mysql" ∷ codes "rds_postgres" ∷ [])
unfolding supported_types working fetch str_eq sort_strings str_lt
orm_types = refl

config_accepts : support Kind.config (codes "anything") ≡ supported
unfolding support fetch str_eq
config_accepts = refl

vpc_for_database : needs_vpc (codes "function" ∷ codes "rds_postgres" ∷ []) ≡ true
unfolding needs_vpc str_eq
vpc_for_database = refl

select_topic_backing-support_example :
    (support Kind.pubsub topic_sns ≢ unknown)
    × (is_supported (support Kind.pubsub topic_sns)
        ≡ (not false && str_eq (codes "none") (codes "none")))
unfolding select_topic_backing validate_topic_requirements choose_topic fit payload_limit contains
    elem str_eq
select_topic_backing-support_example =
    select_topic_backing-support default_topic_requirements
      (record { type = topic_sns; because = fan_out }) refl

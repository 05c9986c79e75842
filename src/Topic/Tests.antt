-- ===== src/Topic/Tests.antt =====
-- internal/provider/aws/pubsub_select.go on sample requirements.
use cloudcc.Base.{◌≡◌, refl, true, codes, ◌↔◌, str_eq, elem, [], ◌∷◌, str_lt, sort_strings}
use cloudcc.Base.Int.{pos}
use cloudcc.Topic.Select.{
  TopicRequirements, TopicChoice, chosen, refused, select_topic_backing, default_topic_requirements,
  topic_sns, topic_sqs_fifo, topic_kinesis, fan_out, replays, single_ordered, too_large,
  choose_topic, topic_satisfies, fit, validate_topic_requirements, contains, payload_limit,
  topic_backings,
}
use cloudcc.Topic.Meetable.{IsMeetable, select_topic_backing_iff}
use cloudcc.Topic.Serves.{Serves, select_topic_backing-Serves}

topic_tests : Unit {0}
unfolding select_topic_backing validate_topic_requirements choose_topic topic_satisfies fit
    payload_limit contains elem str_eq
topic_tests = tt

abbrev journal : TopicRequirements
journal = record default_topic_requirements {
  ordering = codes "key";
  delivery = codes "exactly_once";
  replay = true;
  retention_hours = pos 400;
}

default_is_sns :
    select_topic_backing default_topic_requirements
    ≡ chosen (record { type = topic_sns; because = fan_out })
unfolding topic_tests
default_is_sns = refl

-- A topic that asks for single delivery and for replay gets the stream.
journal_is_kinesis :
    select_topic_backing journal ≡ chosen (record { type = topic_kinesis; because = replays })
unfolding topic_tests
journal_is_kinesis = refl

default_too_large :
    select_topic_backing (record default_topic_requirements { max_message_kb = pos 257 })
    ≡ refused (too_large (pos 257) topic_sns 256)
unfolding topic_tests
default_too_large = refl

backings_sorted :
    topic_backings
    ≡ (topic_kinesis ∷ topic_sns ∷ codes "sns_fifo" ∷ codes "sqs" ∷ topic_sqs_fifo ∷ [])
unfolding topic_backings sort_strings str_lt
backings_sorted = refl

select_topic_backing_iff_example :
    ((c : TopicChoice) × (select_topic_backing journal ≡ chosen c)) ↔ IsMeetable journal
select_topic_backing_iff_example = select_topic_backing_iff journal

-- A single subscriber that asks for an order and for exactly one delivery.
abbrev single : TopicRequirements
single = record default_topic_requirements {
  subscribers = codes "one";
  ordering = codes "key";
  delivery = codes "exactly_once";
}

single_is_fifo :
    select_topic_backing single
    ≡ chosen (record { type = topic_sqs_fifo; because = single_ordered (codes "key") })
unfolding topic_tests
single_is_fifo = refl

select_topic_backing-Serves_example : Serves topic_sqs_fifo single
select_topic_backing-Serves_example =
    select_topic_backing-Serves single
      (record { type = topic_sqs_fifo; because = single_ordered (codes "key") }) single_is_fifo

-- ===== src/Topic/Select.antt =====
-- internal/provider/aws/pubsub_select.go: the selection itself. An error is a value of `TopicError` with what its
-- message names. The map of `validateTopicRequirements` is read in the order in which the source writes it.
use cloudcc.Base.{
  ℕ, Bool, false, ◌&&◌, not, Option, none, some, List, [], ◌∷◌, Text, codes, str_eq, elem, ltb,
  if◌then◌else◌, sort_strings,
}
use cloudcc.Base.Int.{ℤ, pos, negsuc, is_negative}

pub record TopicRequirements : Type 0 where
  pub subscribers : Text
  pub ordering : Text
  pub delivery : Text
  pub replay : Bool
  pub retention_hours : ℤ
  pub max_message_kb : ℤ

abbrev pub topic_sns : Text
topic_sns = codes "sns"

abbrev pub topic_sns_fifo : Text
topic_sns_fifo = codes "sns_fifo"

abbrev pub topic_sqs : Text
topic_sqs = codes "sqs"

abbrev pub topic_sqs_fifo : Text
topic_sqs_fifo = codes "sqs_fifo"

abbrev pub topic_kinesis : Text
topic_kinesis = codes "kinesis"

abbrev pub max_sns_payload : ℕ
max_sns_payload = 256

abbrev pub max_sqs_hours : ℕ
max_sqs_hours = 336

abbrev pub max_kinesis_kb : ℕ
max_kinesis_kb = 1024

abbrev pub default_topic_requirements : TopicRequirements
default_topic_requirements = record {
  subscribers = codes "many";
  ordering = codes "none";
  delivery = codes "at_least_once";
  replay = false;
  retention_hours = pos 0;
  max_message_kb = pos max_sns_payload;
}

-- The reason that a choice gives, with the ordering that it names.
pub data Reason : Type 0 where
  replays single_unordered fan_out : Reason
  single_ordered fan_out_ordered : Text → Reason

pub record TopicChoice : Type 0 where
  pub type : Text
  pub because : Reason

pub data TopicError : Type 0 where
  unknown_value : (field value : Text) → TopicError
  negative_retention nonpositive_size retention_too_long : ℤ → TopicError
  exactly_once_unordered : (delivery ordering : Text) → TopicError
  total_replay : TopicError
  too_large : ℤ → Text → ℕ → TopicError
  mismatch : Reason → (want configured : Text) → TopicError

pub data Selected : Type 0 where
  chosen : TopicChoice → Selected
  refused : TopicError → Selected

-- The test `n > limit`.
abbrev pub exceeds : ℤ → ℕ → Bool
exceeds (pos n) limit = ltb limit n
exceeds (negsuc n) limit = false

unfoldable pub contains : List Text → Text → Bool
unfolding elem
contains list v = elem v list

abbrev pub subscribers_enum : List Text
subscribers_enum = codes "many" ∷ codes "one" ∷ []

abbrev pub ordering_enum : List Text
ordering_enum = codes "key" ∷ codes "none" ∷ codes "total" ∷ []

abbrev pub delivery_enum : List Text
delivery_enum = codes "at_least_once" ∷ codes "exactly_once" ∷ []

unfoldable pub validate_topic_requirements : TopicRequirements → Option TopicError
validate_topic_requirements r =
    if not (contains subscribers_enum r.subscribers)
    then some (unknown_value (codes "subscribers") r.subscribers)
    else if not (contains ordering_enum r.ordering)
    then some (unknown_value (codes "ordering") r.ordering)
    else if not (contains delivery_enum r.delivery)
    then some (unknown_value (codes "delivery") r.delivery)
    else if is_negative r.retention_hours
    then some (negative_retention r.retention_hours)
    else if not (exceeds r.max_message_kb 0)
    then some (nonpositive_size r.max_message_kb)
    else none

unfoldable pub choose_topic : TopicRequirements → TopicChoice
choose_topic r =
    if r.replay
    then record { type = topic_kinesis; because = replays }
    else if str_eq r.subscribers (codes "one") && str_eq r.ordering (codes "none")
    then record { type = topic_sqs; because = single_unordered }
    else if str_eq r.subscribers (codes "one")
    then record { type = topic_sqs_fifo; because = single_ordered r.ordering }
    else if str_eq r.ordering (codes "none")
    then record { type = topic_sns; because = fan_out }
    else record { type = topic_sns_fifo; because = fan_out_ordered r.ordering }

unfoldable pub payload_limit : Text → ℕ
payload_limit topic_type =
    if str_eq topic_type topic_kinesis then max_kinesis_kb else max_sns_payload

-- The last check, of the size, which depends on the choice.
unfoldable pub fit : TopicRequirements → TopicChoice → Selected
fit r choice =
    let limit = payload_limit choice.type in
    if exceeds r.max_message_kb limit
    then refused (too_large r.max_message_kb choice.type limit)
    else chosen choice

unfoldable pub select_topic_backing : TopicRequirements → Selected
select_topic_backing r = elim (validate_topic_requirements r) [
  | some e ↦ refused e
  | none ↦
      if str_eq r.delivery (codes "exactly_once") && str_eq r.ordering (codes "none")
      then refused (exactly_once_unordered r.delivery r.ordering)
      else if str_eq r.ordering (codes "total") && r.replay
      then refused total_replay
      else if exceeds r.retention_hours max_sqs_hours && not r.replay
      then refused (retention_too_long r.retention_hours)
      else fit r (choose_topic r)
]

unfoldable pub topic_satisfies : Text → TopicRequirements → Option TopicError
topic_satisfies topic_type r = elim (select_topic_backing r) [
  | refused e ↦ some e
  | chosen want ↦
      if str_eq want.type topic_type
      then none
      else some (mismatch want.because want.type topic_type)
]

unfoldable pub topic_backings : List Text
unfolding sort_strings
topic_backings =
    sort_strings (topic_kinesis ∷ topic_sns ∷ topic_sns_fifo ∷ topic_sqs ∷ topic_sqs_fifo ∷ [])

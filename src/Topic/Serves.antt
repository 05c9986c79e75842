-- ===== src/Topic/Serves.antt =====
-- internal/provider/aws/pubsub_select.go: what the chosen service promises, against what was required.
use cloudcc.Base.{
  ◌≡◌, refl, true, false, Text, codes, str_eq, str_eq_iff, arith, ◌⊎◌, inl, inr, ◌≢◌, Bool-cases,
  subst,
}
use cloudcc.Base.Int.{ℤ, pos, negsuc}
use cloudcc.Topic.Select.{
  TopicRequirements, TopicChoice, chosen, select_topic_backing, choose_topic, fit, topic_kinesis,
  topic_sns, topic_sns_fifo, topic_sqs_fifo, exceeds,
}
use cloudcc.Topic.Meetable.{tests_iff}

-- The services of Amazon, by what they do.
abbrev pub KeepsMessages : Text → Type 0
KeepsMessages t = t ≡ topic_kinesis

abbrev pub KeepsOrder : Text → Type 0
KeepsOrder t = (t ≡ topic_kinesis) ⊎ ((t ≡ topic_sns_fifo) ⊎ (t ≡ topic_sqs_fifo))

abbrev pub FansOut : Text → Type 0
FansOut t = (t ≡ topic_kinesis) ⊎ ((t ≡ topic_sns) ⊎ (t ≡ topic_sns_fifo))

-- What the service gives for the requirements. A stream delivers at least once, and stands also where messages shall come
-- exactly once and be replayed.
pub record Serves (t : Text) (r : TopicRequirements) : Type 0 where
  pub replayed : r.replay ≡ true → KeepsMessages t
  pub ordered : r.ordering ≢ codes "none" → KeepsOrder t
  pub fanned : r.subscribers ≡ codes "many" → FansOut t
  pub once :
      r.delivery ≡ codes "exactly_once"
      → r.replay ≡ false
      → (t ≡ topic_sns_fifo) ⊎ (t ≡ topic_sqs_fifo)
  pub once_replayed : r.delivery ≡ codes "exactly_once" → r.replay ≡ true → t ≡ topic_kinesis
  pub retained : exceeds r.retention_hours 336 ≡ true → KeepsMessages t
  pub fits : exceeds r.max_message_kb 1024 ≡ false
  pub fits_queue : t ≢ topic_kinesis → exceeds r.max_message_kb 256 ≡ false

pub chosen_topic :
    (r : TopicRequirements) (c : TopicChoice)
    → select_topic_backing r ≡ chosen c
    → choose_topic r ≡ c
unfolding select_topic_backing fit
chosen_topic r c h = ground arith

ordering_cases :
    (r : TopicRequirements) → r.ordering ≢ codes "none" → str_eq r.ordering (codes "none") ≡ false
ordering_cases r n = ground (arith, str_eq_iff r.ordering (codes "none"))

many_not_one :
    (r : TopicRequirements)
    → r.subscribers ≡ codes "many"
    → str_eq r.subscribers (codes "one") ≡ false
many_not_one r e = rw e (unfold str_eq in refl)

exceeds_mono : (n : ℤ) → exceeds n 256 ≡ false → exceeds n 1024 ≡ false
exceeds_mono (pos n) h = ground arith
exceeds_mono (negsuc n) h = refl

queue_not_replayed :
    (r : TopicRequirements) → (choose_topic r).type ≢ topic_kinesis → r.replay ≡ false
unfolding choose_topic
queue_not_replayed r n = elim (Bool-cases r.replay) [
  | inl on ↦ absurd (n (ground arith))
  | inr off ↦ off
]

-- The service that is selected gives what the requirements ask for, save one: where messages shall come exactly once and be
-- replayed, it is the stream, which delivers at least once. Else it is the stream where messages are replayed
-- or kept for more than fourteen days, a service that keeps the order where an order is asked for, one that fans out where
-- there are many subscribers, a FIFO service where messages shall come exactly once and not be replayed, and the
-- largest message fits.
pub select_topic_backing-Serves :
    (r : TopicRequirements) (c : TopicChoice) → select_topic_backing r ≡ chosen c → Serves c.type r
select_topic_backing-Serves r c h =
    let m = (tests_iff r).0 (c, h) in
    let e = chosen_topic r c h in
    subst (λ c. Serves c.type r) e
      (record {
        replayed = λ p. unfold choose_topic in ground arith;
        ordered = λ n. unfold choose_topic in ground (arith, ordering_cases r n);
        fanned = λ p. unfold choose_topic in ground (arith, many_not_one r p);
        once = λ p q.
            unfold choose_topic in
            ground (arith, m.once_is_ordered, str_eq_iff r.delivery (codes "exactly_once"));
        once_replayed = λ p q. unfold choose_topic in ground (arith, q);
        retained = λ p. unfold choose_topic in ground (arith, m.long_is_replayed);
        fits = ground (arith, m.size, exceeds_mono r.max_message_kb);
        fits_queue = λ p. ground (arith, m.size, queue_not_replayed r p);
      })

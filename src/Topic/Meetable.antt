-- ===== src/Topic/Meetable.antt =====
-- internal/provider/aws/pubsub_select.go: which requirements get a service.
use cloudcc.Base.{
  ap, ◌∙◌, elem, [], ◌∷◌, ℕ, zero, suc, ◌≡◌, refl, true, false, ◌&&◌, not, none, Text, codes,
  str_eq, str_eq_iff, if◌then◌else◌, arith, ◌↔◌, ◌⊎◌, inl, inr, ◌≢◌, Bool-cases, sym, ltb, ◌<◌, ◌≤◌,
}
use cloudcc.Base.Int.{is_negative, ℤ, pos, negsuc}
use cloudcc.Topic.Select.{
  contains, subscribers_enum, ordering_enum, delivery_enum, TopicRequirements, TopicChoice, chosen,
  select_topic_backing, choose_topic, fit, payload_limit, validate_topic_requirements,
  topic_kinesis, topic_sns, topic_sns_fifo, topic_sqs, topic_sqs_fifo, exceeds,
}

-- Each value is one of those that there are, the retention is not negative, and there is a largest size.
pub record IsWellFormed (r : TopicRequirements) : Type 0 where
  pub subscribers : (r.subscribers ≡ codes "many") ⊎ (r.subscribers ≡ codes "one")
  pub ordering :
      (r.ordering ≡ codes "none") ⊎ ((r.ordering ≡ codes "key") ⊎ (r.ordering ≡ codes "total"))
  pub delivery : (r.delivery ≡ codes "at_least_once") ⊎ (r.delivery ≡ codes "exactly_once")
  pub retention : (n : ℕ) × (r.retention_hours ≡ pos n)
  pub max_size : (n : ℕ) × (r.max_message_kb ≡ pos (suc n))

-- The requirements are well-formed, without the three contradictions that the selection knows, and their messages fit.
pub record IsMeetable (r : TopicRequirements) : Type 0 where
  pub valid : IsWellFormed r
  pub once_is_ordered : r.delivery ≡ codes "exactly_once" → r.ordering ≢ codes "none"
  pub replay_is_keyed : r.ordering ≡ codes "total" → r.replay ≡ false
  pub long_is_replayed : (n : ℕ) → r.retention_hours ≡ pos n → 336 < n → r.replay ≡ true
  pub size : (n : ℕ) → r.max_message_kb ≡ pos n → n ≤ (if r.replay then 1024 else 256)

-- The same by the tests of the code.
pub record IsClear (r : TopicRequirements) : Type 0 where
  pub valid : validate_topic_requirements r ≡ none
  pub once_is_ordered :
      (str_eq r.delivery (codes "exactly_once") && str_eq r.ordering (codes "none")) ≡ false
  pub replay_is_keyed : (str_eq r.ordering (codes "total") && r.replay) ≡ false
  pub long_is_replayed : (exceeds r.retention_hours 336 && not r.replay) ≡ false
  pub size : exceeds r.max_message_kb (if r.replay then 1024 else 256) ≡ false

contains_pair : (v a b : Text) → (contains (a ∷ b ∷ []) v ≡ true) ↔ ((v ≡ a) ⊎ (v ≡ b))
unfolding contains elem
contains_pair v a b = (
  λ h. elim (Bool-cases (str_eq v a)) [
    | inl e ↦ inl (ground (arith, e, str_eq_iff v a))
    | inr n ↦ inr (ground (arith, n, h, str_eq_iff v b))
  ],
  λ h. elim h [
    | inl e ↦ ground (arith, e, str_eq_iff v a)
    | inr e ↦ ground (arith, e, str_eq_iff v b)
  ],
)

contains_triple :
    (v a b c : Text) → (contains (a ∷ b ∷ c ∷ []) v ≡ true) ↔ ((v ≡ b) ⊎ ((v ≡ a) ⊎ (v ≡ c)))
unfolding contains elem
contains_triple v a b c = (
  λ h. elim (Bool-cases (str_eq v a)) [
    | inl e ↦ inr (inl (ground (arith, e, str_eq_iff v a)))
    | inr n ↦ elim (Bool-cases (str_eq v b)) [
      | inl e ↦ inl (ground (arith, e, str_eq_iff v b))
      | inr m ↦ inr (inr (ground (arith, n, m, h, str_eq_iff v c)))
    ]
  ],
  λ h. elim h [
    | inl e ↦ ground (arith, e, str_eq_iff v b)
    | inr d ↦ elim d [
      | inl e ↦ ground (arith, e, str_eq_iff v a)
      | inr e ↦ ground (arith, e, str_eq_iff v c)
    ]
  ],
)

not-negative : (z : ℤ) → is_negative z ≡ false → (n : ℕ) × (z ≡ pos n)
not-negative (pos n) h = (n, refl)
not-negative (negsuc n) h = absurd (ground (arith, h))

exceeds-zero : (z : ℤ) → exceeds z 0 ≡ true → (n : ℕ) × (z ≡ pos (suc n))
exceeds-zero (pos zero) h = absurd (ground (arith, h))
exceeds-zero (pos (suc n)) h = (n, refl)
exceeds-zero (negsuc n) h = absurd (ground (arith, h))

valid-IsWellFormed : (r : TopicRequirements) → validate_topic_requirements r ≡ none → IsWellFormed r
unfolding validate_topic_requirements
valid-IsWellFormed r h =
    let retention : is_negative r.retention_hours ≡ false = ground (arith, h) in
    let size : exceeds r.max_message_kb 0 ≡ true = ground (arith, h) in
    let subscribers : contains subscribers_enum r.subscribers ≡ true = ground (arith, h) in
    let ordering : contains ordering_enum r.ordering ≡ true = ground (arith, h) in
    let delivery : contains delivery_enum r.delivery ≡ true = ground (arith, h) in
    record {
      subscribers = (contains_pair r.subscribers (codes "many") (codes "one")).0 subscribers;
      ordering =
          (contains_triple r.ordering (codes "key") (codes "none") (codes "total")).0 ordering;
      delivery =
          (contains_pair r.delivery (codes "at_least_once") (codes "exactly_once")).0 delivery;
      retention = not-negative r.retention_hours retention;
      max_size = exceeds-zero r.max_message_kb size;
    }

IsWellFormed-valid : (r : TopicRequirements) → IsWellFormed r → validate_topic_requirements r ≡ none
unfolding validate_topic_requirements
IsWellFormed-valid r w =
    let retention : is_negative r.retention_hours ≡ false = ap is_negative w.retention.1 in
    let size : exceeds r.max_message_kb 0 ≡ true =
      ap (λ z. exceeds z 0) w.max_size.1 ∙ ground arith in
    ground (
      arith,
      (contains_pair r.subscribers (codes "many") (codes "one")).1 w.subscribers,
      (contains_triple r.ordering (codes "key") (codes "none") (codes "total")).1 w.ordering,
      (contains_pair r.delivery (codes "at_least_once") (codes "exactly_once")).1 w.delivery,
      retention,
      size,
    )

payload_of :
    (payload_limit topic_kinesis ≡ 1024)
    × (payload_limit topic_sns ≡ 256)
    × (payload_limit topic_sns_fifo ≡ 256)
    × (payload_limit topic_sqs ≡ 256)
    × (payload_limit topic_sqs_fifo ≡ 256)
unfolding payload_limit str_eq
payload_of = (refl, refl, refl, refl, refl)

payload_limit-choose :
    (r : TopicRequirements) → payload_limit (choose_topic r).type ≡ (if r.replay then 1024 else 256)
unfolding choose_topic
payload_limit-choose r = ground (arith, payload_of)

exceeds-false : (z : ℤ) (limit : ℕ) → exceeds z limit ≡ false → (n : ℕ) → z ≡ pos n → n ≤ limit
exceeds-false z limit h n e =
    let at : ltb limit n ≡ false = ap (λ y. exceeds y limit) (sym e) ∙ h in ground (arith, at)

within_exceeds : (z : ℤ) (limit : ℕ) → ((n : ℕ) → z ≡ pos n → n ≤ limit) → exceeds z limit ≡ false
within_exceeds (pos n) limit h = ground (arith, h n refl)
within_exceeds (negsuc n) limit h = refl

IsClear-IsMeetable : (r : TopicRequirements) → IsClear r → IsMeetable r
IsClear-IsMeetable r c = record {
  valid = valid-IsWellFormed r c.valid;
  once_is_ordered = λ p q. ground (
    arith,
    c.once_is_ordered,
    (str_eq_iff r.delivery (codes "exactly_once")).1 p,
    (str_eq_iff r.ordering (codes "none")).1 q,
  );
  replay_is_keyed =
      λ p. ground (arith, c.replay_is_keyed, (str_eq_iff r.ordering (codes "total")).1 p);
  long_is_replayed = λ n e more.
      let at : exceeds r.retention_hours 336 ≡ true =
        ap (λ z. exceeds z 336) e ∙ ground (arith, more) in
      ground (arith, at, c.long_is_replayed);
  size = exceeds-false r.max_message_kb (if r.replay then 1024 else 256) c.size;
}

IsMeetable-IsClear : (r : TopicRequirements) → IsMeetable r → IsClear r
IsMeetable-IsClear r m =
    let once = str_eq_iff r.delivery (codes "exactly_once") in
    let plain = str_eq_iff r.ordering (codes "none") in
    let total = str_eq_iff r.ordering (codes "total") in
    record {
      valid = IsWellFormed-valid r m.valid;
      once_is_ordered =
          elim (Bool-cases
            (str_eq r.delivery (codes "exactly_once") && str_eq r.ordering (codes "none"))) [
              | inl both ↦ absurd (
                  m.once_is_ordered (once.0 (ground (arith, both)))
                    (plain.0 (ground (arith, both))))
              | inr apart ↦ apart
            ];
      replay_is_keyed = elim (Bool-cases (str_eq r.ordering (codes "total"))) [
        | inl y ↦ ground (arith, m.replay_is_keyed (total.0 y))
        | inr n ↦ ground (arith, n)
      ];
      long_is_replayed = elim (Bool-cases r.replay) [
        | inl on ↦ ground (arith, on)
        | inr off ↦
            let short = within_exceeds r.retention_hours 336 (λ n e. elim (Bool-cases (ltb 336 n)) [
              | inl more ↦
                  absurd (ground (arith, off, m.long_is_replayed n e (ground (arith, more))))
              | inr less ↦ ground (arith, less)
            ]) in
            ground (arith, short)
      ];
      size = within_exceeds r.max_message_kb (if r.replay then 1024 else 256) m.size;
    }

pub tests_iff :
    (r : TopicRequirements) → ((c : TopicChoice) × (select_topic_backing r ≡ chosen c)) ↔ IsClear r
unfolding select_topic_backing fit
tests_iff r = (
  λ (c, h). record {
    valid = ground arith;
    once_is_ordered = ground arith;
    replay_is_keyed = ground arith;
    long_is_replayed = ground arith;
    size = ground (arith, payload_limit-choose r);
  },
  λ m. (
    choose_topic r,
    ground (
      arith,
      m.valid,
      m.once_is_ordered,
      m.replay_is_keyed,
      m.long_is_replayed,
      m.size,
      payload_limit-choose r,
    ),
  ),
)

-- A service is selected exactly if the requirements are well-formed, do not ask for exactly one delivery without an order,
-- for a total order with a replay or for more than fourteen days without a replay, and their messages fit: in a record of a stream with replay, in a message of a queue or a topic without.
pub select_topic_backing_iff :
    (r : TopicRequirements)
    → ((c : TopicChoice) × (select_topic_backing r ≡ chosen c)) ↔ IsMeetable r
select_topic_backing_iff r =
    let h = tests_iff r in (λ c. IsClear-IsMeetable r (h.0 c), λ m. h.1 (IsMeetable-IsClear r m))

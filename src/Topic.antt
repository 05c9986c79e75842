-- ===== src/Topic.antt =====
-- internal/provider/aws/pubsub_select.go: which service backs a topic.
pub mod Select
pub mod Meetable
pub mod Serves
pub mod Tests

-- ===== src/Loadtest.antt =====
-- internal/loadtest: the shapes of load, and the report of a run.
pub mod Strategy
pub mod Peak
pub mod Reach
pub mod Edges
pub mod Reached
pub mod Checklist
pub mod Plan
pub mod Derived
pub mod Answered
pub mod Covered
pub mod Report
pub mod Compared
pub mod Tests
pub mod PlanTests

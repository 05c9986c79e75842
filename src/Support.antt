-- ===== src/Support.antt =====
-- internal/provider/aws/support.go: which types of a capability the provider can expand.
pub mod Table
pub mod Levels
pub mod Tests

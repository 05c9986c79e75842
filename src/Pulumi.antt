-- ===== src/Pulumi.antt =====
-- internal/iac/pulumi_ts: the names of the constants that a generated program declares.
pub mod Names
pub mod Unique
pub mod Tests

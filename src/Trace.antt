-- ===== src/Trace.antt =====
-- internal/cli/trace.go: the comparison of two traces.
pub mod Diff
pub mod Same
pub mod Tests

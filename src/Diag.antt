-- ===== src/Diag.antt =====
-- internal/diag/diag.go: the sink of diagnostics.
pub mod Defs
pub mod Sink
pub mod Order
pub mod Tests

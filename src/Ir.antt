-- ===== src/Ir.antt =====
-- internal/ir/ir.go: the program of intents, resources and edges.
pub mod Defs
pub mod Links
pub mod Order
pub mod Expr
pub mod Refs
pub mod Occurs
pub mod Linked
pub mod Tests

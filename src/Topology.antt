-- ===== src/Topology.antt =====
-- internal/topology/topology.go: the diagrams of a program.
pub mod Draw
pub mod Drawn
pub mod Tests

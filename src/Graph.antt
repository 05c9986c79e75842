-- ===== src/Graph.antt =====
-- internal/graph/graph.go: the deterministic directed graph. A Go map from keys to nodes is an
-- association list without repeated keys. The two adjacency maps are functions into Option, where
-- `none` is an absent key; a read of an absent key gives the nil slice.
mod Defs
pub mod Adjacency
pub mod Shape
pub mod Linked
pub mod Release
pub mod Kahn
pub mod Final
pub mod Topo
pub mod Tests
pub use Defs.{Directed, Sorting, sorted, cycle, ran_out}
unfoldable pub use Defs.{
  empty, add, get, has, len, keys, nodes, insert_sorted, successors, predecessors, connect,
  topo_sort, adjacent,
}

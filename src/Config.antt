-- ===== src/Config.antt =====
-- internal/config: cloudcc.yaml, its layers and its checks. Text that a value holds is a list of
-- code points, and error messages are constructors that carry the values which the message names.
pub mod Value
pub mod Kind
pub mod Resource
pub mod App
pub mod Check
pub mod Load
pub mod Merged
pub mod Accepted
pub mod Paths
pub mod Maps
pub mod Overlay
pub mod Copies
pub mod Layers
pub mod Recorded
pub mod Tests

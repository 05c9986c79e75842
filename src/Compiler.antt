-- ===== src/Compiler.antt =====
-- internal/compiler/compiler.go: the plugin schedule and the compiler that runs it.
mod Defs
pub mod Register
pub mod Link
pub mod Schedule
pub mod Run
pub mod Tests
pub use Defs.{
  Plugin, Error, Result, ok, err, duplicate_plugin, unknown_plugin, plugin_cycle, missing_endpoint,
  nil_plugin, too_many_rounds, Compiler, Outcome, finished, aborted,
}
unfoldable pub use Defs.{schedule, new_compiler, order, compile}

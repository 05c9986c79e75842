-- ===== src/Args.antt =====
-- internal/provider/aws/lambdaargs.go and containerargs.go: the settings of an execution unit, checked against what
-- AWS takes.
pub mod Schema
pub mod Translate
pub mod Tables
pub mod Units
pub mod Gathered
pub mod Conforms
pub mod Sizes
pub mod Accepted
pub mod Tests
pub mod Sized
pub mod Placed

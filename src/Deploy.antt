-- ===== src/Deploy.antt =====
-- internal/deploy/preflight.go: the checks before a deployment.
pub mod Preflight
pub mod Ready
pub mod Tests

-- ===== src/Sanitize.antt =====
-- internal/sanitize/sanitize.go: names that each AWS service accepts.
pub mod Chars
pub mod Names
pub mod Keep
pub mod Clamp
pub mod Identifier
pub mod Env
pub mod Valid
pub mod Tests

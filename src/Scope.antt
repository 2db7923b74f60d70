-- ===== src/Scope.antt =====
-- internal/scope: the matcher that decides which URL a request may go to.
pub mod Address
pub mod Allowlist
pub mod Wildcard
pub mod Check
mod Tests

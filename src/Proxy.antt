-- ===== src/Proxy.antt =====
-- internal/proxycore: the engine of hermes-proxy, which evaluates the policy on the path of each
-- outbound request.
pub mod Headers
pub mod Bundle
pub mod Limits
pub mod Engine
pub mod Tests

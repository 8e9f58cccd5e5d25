-- ===== src/Security.antt =====
-- pkg/security: the resource patterns of policy.go.
pub mod Policy
mod Tests

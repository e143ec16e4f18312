-- ===== src/Routing.antt =====
-- internal/gateway/middleware/routing.go: the parts of the routing middleware.
pub mod Targets
pub mod Distinct
pub mod Order
pub mod Health
pub mod Models
pub mod Route
pub mod Plan
pub mod Turns

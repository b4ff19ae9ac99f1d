-- ===== src/Middleware.antt =====
-- src/middleware: what stands between a request and its handler.
pub mod Guard
pub mod Admission
pub mod Routes
pub mod RateLimit
pub mod Domains
pub mod Tests
pub mod RouteTests

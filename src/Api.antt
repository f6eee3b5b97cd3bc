-- ===== src/Api.antt =====
-- backend/internal/api: the parts of the HTTP layer that decide, each in a child module.
pub mod RateLimit
pub mod Input
pub mod Login
pub mod Gate
pub mod Validate
pub mod Recovery

-- ===== src/Utils.antt =====
-- The crate elfo-utils.
pub mod RateLimiter
mod Examples

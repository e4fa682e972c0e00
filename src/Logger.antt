-- ===== src/Logger.antt =====
-- The crate elfo-logger.
pub mod LineBuffer
mod Examples

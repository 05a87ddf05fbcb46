-- ===== src/Resources.antt =====
-- internal/resources/manager.go and the constants of internal/constants/app.go that it reads.
pub mod Limits
pub mod Pool
pub mod Chunk
mod Tests

-- ===== src/Crawler.antt =====
-- backend/internal/crawler: the engine and what it calls.
pub mod Engine
pub mod Robots
pub mod Worker
pub mod Extract

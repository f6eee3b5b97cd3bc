-- ===== src/Proxy.antt =====
-- backend/internal/proxy: the Tor control port, and the HTTP client's circuit and redirect policy.
pub mod TorController
pub mod Cooldown
pub mod Client

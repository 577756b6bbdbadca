-- ===== src/Biz.antt =====
-- internal/biz/service.go: the service that shares one chip between the clients.
pub mod Cache
pub mod Gate
pub mod Service
pub mod Interleaving
pub mod Later
pub mod Keeping
pub mod Replay
pub mod Health

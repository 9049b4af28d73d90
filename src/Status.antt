-- ===== src/Status.antt =====
-- internal/status/manager.go: the status of a MusicService.
pub mod Conditions
pub mod Storage
pub mod Manager

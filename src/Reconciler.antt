-- ===== src/Reconciler.antt =====
-- internal/reconciler: the code that brings the cluster to what a MusicService asks for.
pub mod Storage
pub mod Compare
pub mod Ensure
pub mod App
pub mod Secret
pub mod Database
pub mod Authority
pub mod Convergence
pub mod Success
pub mod Quiet
pub mod Quiescence
pub mod Total
pub mod Presence
pub mod Inventory

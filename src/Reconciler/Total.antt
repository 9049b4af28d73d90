-- ===== src/Reconciler/Total.antt =====
-- The reconcilers on a steady server: how their calls may end.
pub mod Sets
mod Secrets
pub mod Objects
pub use Sets.{NotRead, Sound, Steady, other_error}
pub use Objects.*

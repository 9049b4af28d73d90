-- ===== src/Reconciler/Inventory.antt =====
-- The objects that the reconcilers see to on a lawful server.
mod Objects
mod Replicas
pub use Objects.*
pub use Replicas.*

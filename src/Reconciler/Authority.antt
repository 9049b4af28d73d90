-- ===== src/Reconciler/Authority.antt =====
-- What the reconcilers may do to the cluster for a MusicService, whatever the server answers: each
-- property of the world that the permitted calls keep is kept.
mod Sets
mod Objects
pub use Sets.*
pub use Objects.*

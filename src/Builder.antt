-- ===== src/Builder.antt =====
-- internal/builder/resource_builder.go: the objects that belong to a MusicService.
mod Common
mod Scripts
mod Services
mod Autoscalers
mod Parts
mod App
mod Database
mod Galera
pub mod Ownership
pub mod Routing
pub mod Mounts
pub mod Config
pub mod Members
pub mod Total
pub mod Keys
unfoldable pub use Common.*
unfoldable pub use Scripts.*
unfoldable pub use Services.*
unfoldable pub use Autoscalers.*
unfoldable pub use Parts.*
unfoldable pub use App.*
unfoldable pub use Database.*
unfoldable pub use Galera.*
pub use Common.Buildable.{IsBuildable, IsDatabase, IsQuantity}
pub use Total.{HasReplicas}

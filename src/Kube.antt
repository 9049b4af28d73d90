-- ===== src/Kube.antt =====
-- The Kubernetes objects that the operator fills in and compares, with the fields that it uses
-- (k8s.io/api, apimachinery). Maps are association lists, nil slices and nil maps are empty ones,
-- nil pointers are `none`, times are numbers with 0 for the zero time.
mod Meta
mod Core
mod Apps
pub use Meta.*
unfoldable pub use Core.*
unfoldable pub use Apps.*

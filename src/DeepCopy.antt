-- ===== src/DeepCopy.antt =====
-- api/v1/zz_generated.deepcopy.go: the copies of a resource that Kubernetes' client takes.
pub mod Structs
pub mod Memory
pub mod Generated
pub mod Copyable
pub mod Reading
pub mod Pointers
pub mod Pairs
pub mod Rules
pub mod Specs
pub mod Resources
pub mod Separation
pub mod All

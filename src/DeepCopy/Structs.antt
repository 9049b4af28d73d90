-- ===== src/DeepCopy/Structs.antt =====
-- api/v1/musicservice_types.go: the structs as they lie in memory, where a pointer is an address
-- and a slice is nil or the address of its array. A struct without pointers is that of Api.
use kind_music_streaming.Prelude.{ℕ, String, Bool, Option, List}
use kind_music_streaming.Prelude.Int.{ℤ}
use kind_music_streaming.Kube.{Time, Condition}
use kind_music_streaming.Api.{StreamingSpec, StorageSpec, DatabaseHighAvailabilitySpec}

abbrev pub Address : Type 0
Address = ℕ

-- `nil` is `none`.
abbrev pub Pointer : Type 0
Pointer = Option Address

-- What the structs hold of other packages: `metav1.ObjectMeta`, `metav1.ListMeta` as it lies in
-- memory and as it reads, `corev1.ResourceRequirements`, and what their own pointers lead to.
pub record Foreign : Type 1 where
  pub MetaLayout : Type 0
  pub ListMetaLayout : Type 0
  pub ListMeta : Type 0
  pub ResourcesLayout : Type 0
  pub Contents : Type 0

-- `metav1.TypeMeta`
pub record TypeMeta : Type 0 where
  pub kind : String
  pub api_version : String

pub record AutoscalingLayout : Type 0 where
  pub min_replicas : ℤ
  pub max_replicas : ℤ
  pub target_cpu_utilization_percentage : ℤ
  pub target_memory_utilization_percentage : Pointer

pub record ReplicationLayout : Type 0 where
  pub enabled : Pointer
  pub gtid : Pointer

pub record DatabaseLayout : Type 0 where
  pub enabled : Bool
  pub replicas : ℤ
  pub image : String
  pub storage : Pointer
  pub root_password : String
  pub replication : Pointer
  pub autoscaling : Pointer
  pub high_availability : Pointer

pub record DatabaseStatusLayout : Type 0 where
  pub phase : String
  pub master_ready : Bool
  pub replicas_ready : ℤ
  pub replica_ever_created : Bool
  pub replica_last_seen : Pointer
  pub replica_deletion_detected : Bool
  pub replication_ready : Bool

pub record SpecLayout : Type 0 where
  pub replicas : ℤ
  pub image : String
  pub port : ℤ
  pub storage : StorageSpec
  pub streaming : StreamingSpec
  pub resources : Pointer
  pub autoscaling : Pointer
  pub database : Pointer

pub record StatusLayout : Type 0 where
  pub observed_generation : ℤ
  pub desired_replicas : ℤ
  pub ready_replicas : ℤ
  pub phase : String
  pub last_reconcile_time : Pointer
  pub last_error : String
  pub conditions : Pointer
  pub database : Pointer

pub record MusicServiceLayout (f : Foreign) : Type 0 where
  pub type_meta : TypeMeta
  pub metadata : f.MetaLayout
  pub spec : SpecLayout
  pub status : StatusLayout

pub record MusicServiceListLayout (f : Foreign) : Type 0 where
  pub type_meta : TypeMeta
  pub metadata : f.ListMetaLayout
  pub items : Pointer

-- What an address can hold.
pub data Cell (f : Foreign) : Type 0 where
  int32 : ℤ → Cell f
  bool : Bool → Cell f
  time : Time → Cell f
  storage : StorageSpec → Cell f
  streaming : StreamingSpec → Cell f
  high_availability : DatabaseHighAvailabilitySpec → Cell f
  autoscaling : AutoscalingLayout → Cell f
  replication : ReplicationLayout → Cell f
  database : DatabaseLayout → Cell f
  database_status : DatabaseStatusLayout → Cell f
  spec : SpecLayout → Cell f
  status : StatusLayout → Cell f
  resources : f.ResourcesLayout → Cell f
  conditions : List Condition → Cell f
  items : List (MusicServiceLayout f) → Cell f
  music_service : MusicServiceLayout f → Cell f
  music_service_list : MusicServiceListLayout f → Cell f
  contents : f.Contents → Cell f

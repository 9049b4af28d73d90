-- ===== src/Api.antt =====
-- api/v1/musicservice_types.go and api/v1/groupversion_info.go: the MusicService resource.
use kind_music_streaming.Prelude.{String, Bool, Option, List}
use kind_music_streaming.Prelude.Int.{ℤ}
use kind_music_streaming.Kube.{Time, GroupVersionKind, ObjectMeta, Condition, ResourceRequirements}

pub record StreamingSpec : Type 0 where
  pub bitrate : String
  pub max_connections : ℤ

-- `StorageUpdatePolicy` is a text, and the empty one stands for the default.
abbrev pub StorageUpdatePolicy : Type 0
StorageUpdatePolicy = String

abbrev pub storage_update_policy_resize : StorageUpdatePolicy
storage_update_policy_resize = "Resize"

abbrev pub storage_update_policy_recreate : StorageUpdatePolicy
storage_update_policy_recreate = "Recreate"

pub record StorageSpec : Type 0 where
  pub size : String
  pub update_policy : StorageUpdatePolicy

pub record AutoscalingSpec : Type 0 where
  pub min_replicas : ℤ
  pub max_replicas : ℤ
  pub target_cpu_utilization_percentage : ℤ
  pub target_memory_utilization_percentage : Option ℤ

pub record DatabaseReplicationSpec : Type 0 where
  pub enabled : Option Bool
  pub gtid : Option Bool

pub record DatabaseHighAvailabilitySpec : Type 0 where
  pub enabled : Bool

pub record DatabaseSpec : Type 0 where
  pub enabled : Bool
  pub replicas : ℤ
  pub image : String
  pub storage : Option StorageSpec
  pub root_password : String
  pub replication : Option DatabaseReplicationSpec
  pub autoscaling : Option AutoscalingSpec
  pub high_availability : Option DatabaseHighAvailabilitySpec

pub record DatabaseStatus : Type 0 where
  pub phase : String
  pub master_ready : Bool
  pub replicas_ready : ℤ
  pub replica_ever_created : Bool
  pub replica_last_seen : Option Time
  pub replica_deletion_detected : Bool
  pub replication_ready : Bool

pub record MusicServiceSpec : Type 0 where
  pub replicas : ℤ
  pub image : String
  pub port : ℤ
  pub storage : StorageSpec
  pub streaming : StreamingSpec
  pub resources : Option ResourceRequirements
  pub autoscaling : Option AutoscalingSpec
  pub database : Option DatabaseSpec

pub record MusicServiceStatus : Type 0 where
  pub observed_generation : ℤ
  pub desired_replicas : ℤ
  pub ready_replicas : ℤ
  pub phase : String
  pub last_reconcile_time : Option Time
  pub last_error : String
  pub conditions : List Condition
  pub database : Option DatabaseStatus

pub record MusicService : Type 0 where
  pub metadata : ObjectMeta
  pub spec : MusicServiceSpec
  pub status : MusicServiceStatus

-- `GroupVersion.WithKind("MusicService")`
abbrev pub music_service_kind : GroupVersionKind
music_service_kind = record { group = "music.mixcorp.org"; version = "v1"; kind = "MusicService" }

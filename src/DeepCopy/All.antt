-- ===== src/DeepCopy/All.antt =====
-- DeepCopy of each type of api/v1.
use kind_music_streaming.Prelude.{Option, List}
use kind_music_streaming.Api.{
  StreamingSpec, StorageSpec, AutoscalingSpec, DatabaseReplicationSpec,
  DatabaseHighAvailabilitySpec, DatabaseSpec, DatabaseStatus, MusicServiceSpec, MusicServiceStatus,
  MusicService,
}
use kind_music_streaming.Exec.{Exec}
use kind_music_streaming.DeepCopy.Structs.{Pointer, Foreign, TypeMeta}
use kind_music_streaming.DeepCopy.Memory.{
  Memory, streaming_Stored, storage_Stored, high_availability_Stored, autoscaling_Stored,
  replication_Stored, database_Stored, database_status_Stored, spec_Stored, status_Stored,
  music_service_Stored, music_service_list_Stored,
}
use kind_music_streaming.DeepCopy.Generated.{
  ForeignCopies, streaming_deep_copy_into, streaming_deep_copy, storage_deep_copy_into,
  storage_deep_copy, high_availability_deep_copy_into, high_availability_deep_copy,
  autoscaling_deep_copy, replication_deep_copy, database_deep_copy, database_status_deep_copy,
  spec_deep_copy, status_deep_copy, music_service_deep_copy, music_service_list_deep_copy,
}
use kind_music_streaming.DeepCopy.Reading.{
  ForeignReads, plain, read_pointer, read_autoscaling, read_replication, read_database,
  read_database_status, read_spec, read_status, read_music_service, read_music_service_list,
}
use kind_music_streaming.DeepCopy.Copyable.{Reads, Copies}
use kind_music_streaming.DeepCopy.Pointers.{Copyable-plain}
use kind_music_streaming.DeepCopy.Rules.{Copyable-pointer}
use kind_music_streaming.DeepCopy.Specs.{
  Copyable-autoscaling, Copyable-replication, Copyable-database, Copyable-spec,
}
use kind_music_streaming.DeepCopy.Resources.{
  ForeignLaws, Copyable-database_status, Copyable-status, Copyable-music_service,
  Copyable-music_service_list,
}

-- The types of api/v1 that have a DeepCopy.
pub data ApiType : Type 0 where
  streaming : ApiType
  storage : ApiType
  high_availability : ApiType
  autoscaling : ApiType
  replication : ApiType
  database : ApiType
  database_status : ApiType
  spec : ApiType
  status : ApiType
  music_service : ApiType
  music_service_list : ApiType

module _ (f : Foreign) where
  -- What a pointer to a value of the type reads as.
  abbrev pub ValueOf : ApiType → Type 0
  ValueOf streaming = Option StreamingSpec
  ValueOf storage = Option StorageSpec
  ValueOf high_availability = Option DatabaseHighAvailabilitySpec
  ValueOf autoscaling = Option AutoscalingSpec
  ValueOf replication = Option DatabaseReplicationSpec
  ValueOf database = Option DatabaseSpec
  ValueOf database_status = Option DatabaseStatus
  ValueOf spec = Option MusicServiceSpec
  ValueOf status = Option MusicServiceStatus
  ValueOf music_service = Option (TypeMeta × MusicService)
  ValueOf music_service_list = Option (TypeMeta × (f.ListMeta × List (TypeMeta × MusicService)))

module _ {f : Foreign} (o : ForeignCopies f) where
  unfoldable pub deep_copy_of : ApiType → Pointer → Exec (Memory f) Pointer
  unfolding streaming_deep_copy storage_deep_copy high_availability_deep_copy autoscaling_deep_copy
      replication_deep_copy database_deep_copy database_status_deep_copy spec_deep_copy
      status_deep_copy music_service_deep_copy music_service_list_deep_copy
  deep_copy_of streaming = streaming_deep_copy
  deep_copy_of storage = storage_deep_copy
  deep_copy_of high_availability = high_availability_deep_copy
  deep_copy_of autoscaling = autoscaling_deep_copy
  deep_copy_of replication = replication_deep_copy
  deep_copy_of database = database_deep_copy
  deep_copy_of database_status = database_status_deep_copy o
  deep_copy_of spec = spec_deep_copy o
  deep_copy_of status = status_deep_copy o
  deep_copy_of music_service = music_service_deep_copy o
  deep_copy_of music_service_list = music_service_list_deep_copy o

module _ {f : Foreign} (r : ForeignReads f) where
  unfoldable pub read_of : (t : ApiType) → Memory f → Pointer → Option (ValueOf f t)
  unfolding read_pointer read_autoscaling read_replication read_database read_database_status
      read_spec read_status read_music_service read_music_service_list
  read_of streaming = read_pointer ⦃s = streaming_Stored⦄ plain
  read_of storage = read_pointer ⦃s = storage_Stored⦄ plain
  read_of high_availability = read_pointer ⦃s = high_availability_Stored⦄ plain
  read_of autoscaling = read_pointer read_autoscaling
  read_of replication = read_pointer read_replication
  read_of database = read_pointer read_database
  read_of database_status = read_pointer read_database_status
  read_of spec = read_pointer (read_spec r)
  read_of status = read_pointer read_status
  read_of music_service = read_pointer (read_music_service r)
  read_of music_service_list = read_pointer (read_music_service_list r)

module _ {f : Foreign} {o : ForeignCopies f} {r : ForeignReads f} (laws : ForeignLaws o r) where
  -- DeepCopy of each of the types, given nil or a pointer that leads to a value in allocated memory,
  -- returns nil or a pointer to an equal value. It changes no cell that was allocated, and whatever
  -- these cells hold later, the copy reads as that value.
  pub deep_copy_of-Copies :
      (t : ApiType) (h : Memory f) (p : Pointer) (v : ValueOf f t)
      → Reads 0 h.next h (λ g. read_of r t g p) v
      → Copies (deep_copy_of o t p) (read_of r t) h v
  unfolding deep_copy_of read_of streaming_deep_copy storage_deep_copy high_availability_deep_copy
      autoscaling_deep_copy replication_deep_copy database_deep_copy database_status_deep_copy
      spec_deep_copy status_deep_copy music_service_deep_copy music_service_list_deep_copy
      streaming_deep_copy_into storage_deep_copy_into high_availability_deep_copy_into
  deep_copy_of-Copies streaming = Copyable-pointer ⦃s = streaming_Stored⦄ Copyable-plain
  deep_copy_of-Copies storage = Copyable-pointer ⦃s = storage_Stored⦄ Copyable-plain
  deep_copy_of-Copies high_availability =
      Copyable-pointer ⦃s = high_availability_Stored⦄ Copyable-plain
  deep_copy_of-Copies autoscaling = Copyable-pointer Copyable-autoscaling
  deep_copy_of-Copies replication = Copyable-pointer Copyable-replication
  deep_copy_of-Copies database = Copyable-pointer Copyable-database
  deep_copy_of-Copies database_status = Copyable-pointer (Copyable-database_status laws)
  deep_copy_of-Copies spec = Copyable-pointer (Copyable-spec o r laws.resources)
  deep_copy_of-Copies status = Copyable-pointer (Copyable-status laws)
  deep_copy_of-Copies music_service = Copyable-pointer (Copyable-music_service laws)
  deep_copy_of-Copies music_service_list = Copyable-pointer (Copyable-music_service_list laws)

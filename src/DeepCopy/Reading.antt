-- ===== src/DeepCopy/Reading.antt =====
-- What a struct in memory stands for: the resource of Api that is found when its pointers are
-- followed, or nothing where a pointer leads to no such value.
use mathlib.Core.Option
use kind_music_streaming.Prelude.{Option, none, some, List, [], ◌∷◌}
use kind_music_streaming.Kube.{ObjectMeta, ResourceRequirements}
use kind_music_streaming.Api.{
  AutoscalingSpec, DatabaseReplicationSpec, DatabaseSpec, DatabaseStatus, MusicServiceSpec,
  MusicServiceStatus, MusicService,
}
use kind_music_streaming.DeepCopy.Structs.{
  Address, Pointer, Foreign, TypeMeta, AutoscalingLayout, ReplicationLayout, DatabaseLayout,
  DatabaseStatusLayout, SpecLayout, StatusLayout, MusicServiceLayout, MusicServiceListLayout,
}
use kind_music_streaming.DeepCopy.Memory.{
  Memory, Stored, look, int32_Stored, bool_Stored, time_Stored, storage_Stored,
  high_availability_Stored, autoscaling_Stored, replication_Stored, database_Stored,
  database_status_Stored, resources_Stored, conditions_Stored, items_Stored,
}

module _ {f : Foreign} where
  -- A value without pointers.
  abbrev pub plain : {A : Type 0} → Memory f → A → Option A
  plain h value = some value

  unfoldable pub read_elements :
      {A V : Type 0} → (Memory f → A → Option V) → Memory f → List A → Option (List V)
  unfolding Option.bind
  read_elements read h [] = some []
  read_elements read h (x ∷ xs) =
      Option.bind (read h x) λ v. Option.map (λ vs. v ∷ vs) (read_elements read h xs)

  module _ {A V : Type 0} ⦃s : Stored f A⦄ (read : Memory f → A → Option V) where
    unfoldable pub read_at : Memory f → Address → Option V
    unfolding Option.bind look
    read_at h a = Option.bind (look h a) (read h)

    unfoldable pub read_pointer : Memory f → Pointer → Option (Option V)
    unfolding read_at
    read_pointer h none = some none
    read_pointer h (some a) = Option.map some (read_at h a)

  -- A nil slice reads as an empty one.
  unfoldable pub read_slice :
      {A V : Type 0} ⦃s : Stored f (List A)⦄ (read : Memory f → A → Option V)
      → Memory f
      → Pointer
      → Option (List V)
  unfolding read_at read_elements
  read_slice read h none = some []
  read_slice read h (some a) = read_at (read_elements read) h a

  unfoldable pub read_both :
      {A B V W : Type 0} (first : Memory f → A → Option V) (second : Memory f → B → Option W)
      → Memory f
      → A × B
      → Option (V × W)
  unfolding Option.bind
  read_both first second h (a, b) =
      Option.bind (first h a) λ v. Option.map (λ w. (v, w)) (second h b)

  unfoldable pub read_autoscaling : Memory f → AutoscalingLayout → Option AutoscalingSpec
  unfolding read_pointer
  read_autoscaling h config =
      Option.map
        (λ target. record {
          min_replicas = config.min_replicas;
          max_replicas = config.max_replicas;
          target_cpu_utilization_percentage = config.target_cpu_utilization_percentage;
          target_memory_utilization_percentage = target;
        })
        (read_pointer ⦃s = int32_Stored⦄ plain h config.target_memory_utilization_percentage)

  unfoldable pub read_replication : Memory f → ReplicationLayout → Option DatabaseReplicationSpec
  unfolding read_both read_pointer
  read_replication h config =
      Option.map (λ (enabled, gtid). record { enabled = enabled; gtid = gtid })
        (read_both (read_pointer ⦃s = bool_Stored⦄ plain) (read_pointer ⦃s = bool_Stored⦄ plain) h
          (config.enabled, config.gtid))

  unfoldable pub read_database : Memory f → DatabaseLayout → Option DatabaseSpec
  unfolding read_both read_pointer read_replication read_autoscaling
  read_database h config =
      Option.map
        (λ (storage, (replication, (autoscaling, high_availability))). record {
          enabled = config.enabled;
          replicas = config.replicas;
          image = config.image;
          storage = storage;
          root_password = config.root_password;
          replication = replication;
          autoscaling = autoscaling;
          high_availability = high_availability;
        })
        (read_both (read_pointer ⦃s = storage_Stored⦄ plain)
          (read_both (read_pointer read_replication) (
            read_both (read_pointer read_autoscaling)
              (read_pointer ⦃s = high_availability_Stored⦄ plain)))
          h (config.storage, (config.replication, (config.autoscaling, config.high_availability))))

  unfoldable pub read_database_status : Memory f → DatabaseStatusLayout → Option DatabaseStatus
  unfolding read_pointer
  read_database_status h status =
      Option.map
        (λ seen. record {
          phase = status.phase;
          master_ready = status.master_ready;
          replicas_ready = status.replicas_ready;
          replica_ever_created = status.replica_ever_created;
          replica_last_seen = seen;
          replica_deletion_detected = status.replica_deletion_detected;
          replication_ready = status.replication_ready;
        })
        (read_pointer ⦃s = time_Stored⦄ plain h status.replica_last_seen)

  unfoldable pub read_status : Memory f → StatusLayout → Option MusicServiceStatus
  unfolding read_both read_pointer read_slice read_database_status
  read_status h status =
      Option.map
        (λ (time, (conditions, database)). record {
          observed_generation = status.observed_generation;
          desired_replicas = status.desired_replicas;
          ready_replicas = status.ready_replicas;
          phase = status.phase;
          last_reconcile_time = time;
          last_error = status.last_error;
          conditions = conditions;
          database = database;
        })
        (read_both (read_pointer ⦃s = time_Stored⦄ plain)
          (read_both (read_slice ⦃s = conditions_Stored⦄ plain) (read_pointer read_database_status))
          h (status.last_reconcile_time, (status.conditions, status.database)))

-- How the values of other packages read.
pub record ForeignReads (f : Foreign) : Type 0 where
  pub read_meta : Memory f → f.MetaLayout → Option ObjectMeta
  pub read_list_meta : Memory f → f.ListMetaLayout → Option f.ListMeta
  pub read_resources : Memory f → f.ResourcesLayout → Option ResourceRequirements

module _ {f : Foreign} (r : ForeignReads f) where
  unfoldable pub read_spec : Memory f → SpecLayout → Option MusicServiceSpec
  unfolding read_both read_pointer read_autoscaling read_database
  read_spec h spec =
      Option.map
        (λ (resources, (autoscaling, database)). record {
          replicas = spec.replicas;
          image = spec.image;
          port = spec.port;
          storage = spec.storage;
          streaming = spec.streaming;
          resources = resources;
          autoscaling = autoscaling;
          database = database;
        })
        (read_both (read_pointer ⦃s = resources_Stored⦄ r.read_resources)
          (read_both (read_pointer read_autoscaling) (read_pointer read_database)) h
          (spec.resources, (spec.autoscaling, spec.database)))

  unfoldable pub read_music_service :
      Memory f → MusicServiceLayout f → Option (TypeMeta × MusicService)
  unfolding read_both read_spec read_status
  read_music_service h music =
      Option.map
        (λ (metadata, (spec, status)).
          (music.type_meta, record { metadata = metadata; spec = spec; status = status }))
        (read_both r.read_meta (read_both read_spec read_status) h
          (music.metadata, (music.spec, music.status)))

  unfoldable pub read_music_service_list :
      Memory f
      → MusicServiceListLayout f
      → Option (TypeMeta × (f.ListMeta × List (TypeMeta × MusicService)))
  unfolding read_both read_slice read_music_service
  read_music_service_list h list =
      Option.map (λ contents. (list.type_meta, contents))
        (read_both r.read_list_meta (read_slice read_music_service) h (list.metadata, list.items))

-- ===== src/DeepCopy/Specs.antt =====
-- The copies of the structs of a spec.
use kind_music_streaming.Prelude.{refl, ap, Bool, Option}
use kind_music_streaming.Prelude.Int.{ℤ}
use kind_music_streaming.Api.{
  StorageSpec, DatabaseHighAvailabilitySpec, AutoscalingSpec, DatabaseReplicationSpec, DatabaseSpec,
  MusicServiceSpec,
}
use kind_music_streaming.Kube.{ResourceRequirements}
use kind_music_streaming.DeepCopy.Structs.{
  Pointer, Foreign, AutoscalingLayout, ReplicationLayout, DatabaseLayout, SpecLayout,
}
use kind_music_streaming.DeepCopy.Memory.{
  int32_Stored, bool_Stored, storage_Stored, high_availability_Stored, autoscaling_Stored,
  replication_Stored, database_Stored, resources_Stored,
}
use kind_music_streaming.DeepCopy.Generated.{
  ForeignCopies, autoscaling_deep_copy_into, replication_deep_copy_into, database_deep_copy_into,
  spec_deep_copy_into,
}
use kind_music_streaming.DeepCopy.Reading.{
  ForeignReads, read_autoscaling, read_replication, read_database, read_spec,
}
use kind_music_streaming.DeepCopy.Copyable.{Copyable}
use kind_music_streaming.DeepCopy.Pointers.{Copyable-plain}
use kind_music_streaming.DeepCopy.Pairs.{
  copy_both_then, copy_three_then, copy_four_then, Copyable-both,
}
use kind_music_streaming.DeepCopy.Rules.{Struct, Copyable-pointer, Copyable-struct}

abbrev autoscaling_struct : Struct AutoscalingLayout Pointer AutoscalingSpec (Option ℤ)
autoscaling_struct = record {
  part = λ t. t.target_memory_utilization_percentage;
  set = λ t s. record t { target_memory_utilization_percentage = s };
  value = λ t w. record {
    min_replicas = t.min_replicas;
    max_replicas = t.max_replicas;
    target_cpu_utilization_percentage = t.target_cpu_utilization_percentage;
    target_memory_utilization_percentage = w;
  };
  parts = λ v. v.target_memory_utilization_percentage;
  part-set = λ t s. refl;
  value-set = λ t s w. refl;
  parts-value = λ t w. refl;
}

abbrev replication_struct :
    Struct ReplicationLayout (Pointer × Pointer) DatabaseReplicationSpec (Option Bool × Option Bool)
replication_struct = record {
  part = λ t. (t.enabled, t.gtid);
  set = λ t (enabled, gtid). record { enabled = enabled; gtid = gtid };
  value = λ t (enabled, gtid). record { enabled = enabled; gtid = gtid };
  parts = λ v. (v.enabled, v.gtid);
  part-set = λ t s. refl;
  value-set = λ t s w. refl;
  parts-value = λ t w. refl;
}

abbrev database_struct :
    Struct DatabaseLayout (Pointer × (Pointer × (Pointer × Pointer))) DatabaseSpec (
      Option StorageSpec
      × (Option DatabaseReplicationSpec
          × (Option AutoscalingSpec × Option DatabaseHighAvailabilitySpec)))
database_struct = record {
  part = λ t. (t.storage, (t.replication, (t.autoscaling, t.high_availability)));
  set = λ t (storage, (replication, (autoscaling, high_availability))). record t {
    storage = storage;
    replication = replication;
    autoscaling = autoscaling;
    high_availability = high_availability;
  };
  value = λ t (storage, (replication, (autoscaling, high_availability))). record {
    enabled = t.enabled;
    replicas = t.replicas;
    image = t.image;
    storage = storage;
    root_password = t.root_password;
    replication = replication;
    autoscaling = autoscaling;
    high_availability = high_availability;
  };
  parts = λ v. (v.storage, (v.replication, (v.autoscaling, v.high_availability)));
  part-set = λ t s. refl;
  value-set = λ t s w. refl;
  parts-value = λ t w. refl;
}

abbrev spec_struct :
    Struct SpecLayout
      (Pointer × (Pointer × Pointer))
      MusicServiceSpec
      (Option ResourceRequirements × (Option AutoscalingSpec × Option DatabaseSpec))
spec_struct = record {
  part = λ t. (t.resources, (t.autoscaling, t.database));
  set = λ t (resources, (autoscaling, database)). record t {
    resources = resources;
    autoscaling = autoscaling;
    database = database;
  };
  value = λ t (resources, (autoscaling, database)). record {
    replicas = t.replicas;
    image = t.image;
    port = t.port;
    storage = t.storage;
    streaming = t.streaming;
    resources = resources;
    autoscaling = autoscaling;
    database = database;
  };
  parts = λ v. (v.resources, (v.autoscaling, v.database));
  part-set = λ t s. refl;
  value-set = λ t s w. refl;
  parts-value = λ t w. refl;
}

module _ {f : Foreign} where
  pub Copyable-autoscaling : Copyable {f = f} autoscaling_deep_copy_into read_autoscaling
  unfolding autoscaling_deep_copy_into read_autoscaling
  Copyable-autoscaling =
      Copyable-struct autoscaling_struct (λ t h. refl) (λ t h. refl)
        (Copyable-pointer ⦃s = int32_Stored⦄ Copyable-plain)

  pub Copyable-replication : Copyable {f = f} replication_deep_copy_into read_replication
  unfolding replication_deep_copy_into read_replication
  Copyable-replication =
      Copyable-struct replication_struct
        (λ t h. ap (λ m. m h) (copy_both_then _ _ _ t.enabled t.gtid)) (λ t h. refl)
        (Copyable-both (Copyable-pointer ⦃s = bool_Stored⦄ Copyable-plain)
          (Copyable-pointer ⦃s = bool_Stored⦄ Copyable-plain))

  pub Copyable-database : Copyable {f = f} database_deep_copy_into read_database
  unfolding database_deep_copy_into read_database
  Copyable-database =
      Copyable-struct database_struct
        (λ t h.
          ap (λ m. m h)
            (copy_four_then _ _ _ _ _ t.storage t.replication t.autoscaling t.high_availability))
        (λ t h. refl)
        (Copyable-both (Copyable-pointer ⦃s = storage_Stored⦄ Copyable-plain) (
          Copyable-both (Copyable-pointer Copyable-replication) (
            Copyable-both (Copyable-pointer Copyable-autoscaling)
              (Copyable-pointer ⦃s = high_availability_Stored⦄ Copyable-plain))))

  pub Copyable-spec :
      (o : ForeignCopies f) (r : ForeignReads f)
      → Copyable o.resources_deep_copy_into r.read_resources
      → Copyable (spec_deep_copy_into o) (read_spec r)
  unfolding spec_deep_copy_into read_spec
  Copyable-spec o r resources =
      Copyable-struct spec_struct
        (λ t h. ap (λ m. m h) (copy_three_then _ _ _ _ t.resources t.autoscaling t.database))
        (λ t h. refl)
        (Copyable-both (Copyable-pointer ⦃s = resources_Stored⦄ resources) (
          Copyable-both (Copyable-pointer Copyable-autoscaling)
            (Copyable-pointer Copyable-database)))

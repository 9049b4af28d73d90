-- ===== src/DeepCopy/Resources.antt =====
-- The copies of a MusicService, of its status, and of a list of them.
use kind_music_streaming.Prelude.{refl, ap, Option, List}
use kind_music_streaming.Kube.{Time, ObjectMeta, Condition}
use kind_music_streaming.Api.{DatabaseStatus, MusicServiceSpec, MusicServiceStatus, MusicService}
use kind_music_streaming.DeepCopy.Structs.{
  Pointer, Foreign, TypeMeta, DatabaseStatusLayout, SpecLayout, StatusLayout, MusicServiceLayout,
  MusicServiceListLayout,
}
use kind_music_streaming.DeepCopy.Memory.{
  time_Stored, conditions_Stored, database_status_Stored, items_Stored,
}
use kind_music_streaming.DeepCopy.Generated.{
  ForeignCopies, database_status_deep_copy_into, status_deep_copy_into,
  music_service_deep_copy_into, music_service_list_deep_copy_into,
}
use kind_music_streaming.DeepCopy.Reading.{
  ForeignReads, plain, read_pointer, read_database_status, read_status, read_music_service,
  read_music_service_list,
}
use kind_music_streaming.DeepCopy.Copyable.{Copyable}
use kind_music_streaming.DeepCopy.Pairs.{copy_both_then, copy_three_then, Copyable-both}
use kind_music_streaming.DeepCopy.Rules.{
  Struct, Copyable-pointer, Copyable-slice, Copyable-present, Copyable-struct,
}
use kind_music_streaming.DeepCopy.Specs.{Copyable-spec}

-- What is relied on of the copies of other packages: each copies what its type reads as, into
-- memory that was free.
pub record ForeignLaws {f : Foreign} (o : ForeignCopies f) (r : ForeignReads f) : Type 0 where
  pub meta : Copyable o.meta_deep_copy_into r.read_meta
  pub list_meta : Copyable o.list_meta_deep_copy_into r.read_list_meta
  pub resources : Copyable o.resources_deep_copy_into r.read_resources
  pub condition : Copyable o.condition_deep_copy_into plain
  pub time : Copyable o.time_deep_copy (read_pointer ⦃s = time_Stored⦄ plain)

abbrev database_status_struct : Struct DatabaseStatusLayout Pointer DatabaseStatus (Option Time)
database_status_struct = record {
  part = λ t. t.replica_last_seen;
  set = λ t s. record t { replica_last_seen = s };
  value = λ t w. record {
    phase = t.phase;
    master_ready = t.master_ready;
    replicas_ready = t.replicas_ready;
    replica_ever_created = t.replica_ever_created;
    replica_last_seen = w;
    replica_deletion_detected = t.replica_deletion_detected;
    replication_ready = t.replication_ready;
  };
  parts = λ v. v.replica_last_seen;
  part-set = λ t s. refl;
  value-set = λ t s w. refl;
  parts-value = λ t w. refl;
}

abbrev status_struct :
    Struct StatusLayout
      (Pointer × (Pointer × Pointer))
      MusicServiceStatus
      (Option Time × (List Condition × Option DatabaseStatus))
status_struct = record {
  part = λ t. (t.last_reconcile_time, (t.conditions, t.database));
  set = λ t (time, (conditions, database)). record t {
    last_reconcile_time = time;
    conditions = conditions;
    database = database;
  };
  value = λ t (time, (conditions, database)). record {
    observed_generation = t.observed_generation;
    desired_replicas = t.desired_replicas;
    ready_replicas = t.ready_replicas;
    phase = t.phase;
    last_reconcile_time = time;
    last_error = t.last_error;
    conditions = conditions;
    database = database;
  };
  parts = λ v. (v.last_reconcile_time, (v.conditions, v.database));
  part-set = λ t s. refl;
  value-set = λ t s w. refl;
  parts-value = λ t w. refl;
}

module _ (f : Foreign) where
  abbrev music_service_struct :
      Struct
        (MusicServiceLayout f)
        (f.MetaLayout × (SpecLayout × StatusLayout))
        (TypeMeta × MusicService)
        (ObjectMeta × (MusicServiceSpec × MusicServiceStatus))
  music_service_struct = record {
    part = λ t. (t.metadata, (t.spec, t.status));
    set = λ t (metadata, (spec, status)). record t {
      metadata = metadata;
      spec = spec;
      status = status;
    };
    value = λ t (metadata, (spec, status)).
        (t.type_meta, record { metadata = metadata; spec = spec; status = status });
    parts = λ (_, v). (v.metadata, (v.spec, v.status));
    part-set = λ t s. refl;
    value-set = λ t s w. refl;
    parts-value = λ t w. refl;
  }

  abbrev music_service_list_struct :
      Struct
        (MusicServiceListLayout f)
        (f.ListMetaLayout × Pointer)
        (TypeMeta × (f.ListMeta × List (TypeMeta × MusicService)))
        (f.ListMeta × List (TypeMeta × MusicService))
  music_service_list_struct = record {
    part = λ t. (t.metadata, t.items);
    set = λ t (metadata, items). record t { metadata = metadata; items = items };
    value = λ t contents. (t.type_meta, contents);
    parts = λ (_, contents). contents;
    part-set = λ t s. refl;
    value-set = λ t s w. refl;
    parts-value = λ t w. refl;
  }

module _ {f : Foreign} {o : ForeignCopies f} {r : ForeignReads f} (laws : ForeignLaws o r) where
  pub Copyable-database_status : Copyable (database_status_deep_copy_into o) read_database_status
  unfolding database_status_deep_copy_into read_database_status
  Copyable-database_status =
      Copyable-struct database_status_struct (λ t h. refl) (λ t h. refl)
        (Copyable-present ⦃s = time_Stored⦄ plain laws.time)

  pub Copyable-status : Copyable (status_deep_copy_into o) read_status
  unfolding status_deep_copy_into read_status
  Copyable-status =
      Copyable-struct status_struct
        (λ t h.
          ap (λ m. m h) (copy_three_then _ _ _ _ t.last_reconcile_time t.conditions t.database))
        (λ t h. refl)
        (Copyable-both (Copyable-present ⦃s = time_Stored⦄ plain laws.time) (
          Copyable-both (Copyable-slice ⦃s = conditions_Stored⦄ laws.condition)
            (Copyable-pointer Copyable-database_status)))

  pub Copyable-music_service : Copyable (music_service_deep_copy_into o) (read_music_service r)
  unfolding music_service_deep_copy_into read_music_service
  Copyable-music_service =
      Copyable-struct (music_service_struct f)
        (λ t h. ap (λ m. m h) (copy_three_then _ _ _ _ t.metadata t.spec t.status)) (λ t h. refl)
        (Copyable-both laws.meta (Copyable-both (Copyable-spec o r laws.resources) Copyable-status))

  pub Copyable-music_service_list :
      Copyable (music_service_list_deep_copy_into o) (read_music_service_list r)
  unfolding music_service_list_deep_copy_into read_music_service_list
  Copyable-music_service_list =
      Copyable-struct (music_service_list_struct f)
        (λ t h. ap (λ m. m h) (copy_both_then _ _ _ t.metadata t.items)) (λ t h. refl)
        (Copyable-both laws.list_meta (Copyable-slice ⦃s = items_Stored⦄ Copyable-music_service))

-- ===== src/Reconciler/Database.antt =====
-- internal/reconciler/database.go: the database's StatefulSets, services and autoscaler.
use kind_music_streaming.Prelude.{◌<>◌, Option, none, some, deep_equal, if◌then◌else◌}
use kind_music_streaming.Prelude.Int.{pos, ltb_ℤ, eqb_ℤ}
use kind_music_streaming.Kube.{HorizontalPodAutoscaler, autoscaler_spec_discrete}
use kind_music_streaming.Api.{StorageSpec, AutoscalingSpec, DatabaseSpec, MusicService}
use kind_music_streaming.Exec.{ok, Exec, pure, lift, deref, ◌>>=◌, ◌>>◌, handle}
use kind_music_streaming.Platform.{service, autoscaler, Library, Client}
use kind_music_streaming.Builder.{
  name_of, build_database_galera_stateful_set, build_database_master_stateful_set,
  build_database_replica_stateful_set, build_database_galera_service,
  build_database_galera_primary_service, build_database_galera_read_service,
  build_database_master_service, build_database_read_service, build_database_replica_autoscaler,
}
use kind_music_streaming.Reconciler.Ensure.{create_missing, ensure, reconcile_set}
use kind_music_streaming.Reconciler.Secret.{ensure_replication_secret}

abbrev no_storage : StorageSpec
no_storage = record { size = ""; update_policy = "" }

unfoldable pub database_storage_spec : MusicService → StorageSpec
database_storage_spec ms = elim ms.spec.database [
  | none ↦ no_storage
  | some db ↦ elim db.storage [ none ↦ no_storage | some storage ↦ storage ]
]

module _ (lib : Library) (c : Client) where
  unfoldable pub reconcile_galera : MusicService → Exec c.World (Unit {0})
  unfolding reconcile_set name_of database_storage_spec
  reconcile_galera ms =
      reconcile_set c (name_of ms "-db-galera") (build_database_galera_stateful_set lib ms)
        (database_storage_spec ms) "db-data" (ms.metadata.name <> "-db-galera")

  unfoldable pub reconcile_galera_services : MusicService → Exec c.World (Unit {0})
  unfolding ensure name_of ◌>>=◌
  reconcile_galera_services ms = do
    ensure c service (name_of ms "-db-galera") (ok (build_database_galera_service lib ms))
    ensure c service (name_of ms "-db-master") (ok (build_database_galera_primary_service lib ms))
    ensure c service (name_of ms "-db-read") (ok (build_database_galera_read_service lib ms))

  unfoldable pub reconcile_master : MusicService → Exec c.World (Unit {0})
  unfolding reconcile_set name_of database_storage_spec
  reconcile_master ms =
      reconcile_set c (name_of ms "-db-master") (build_database_master_stateful_set lib ms)
        (database_storage_spec ms) "db-data" (ms.metadata.name <> "-db-master")

  unfoldable pub reconcile_replicas : MusicService → Exec c.World (Unit {0})
  unfolding reconcile_set ensure_replication_secret name_of database_storage_spec deref pure lift
      ◌>>=◌
  reconcile_replicas ms = do
    db ← lift (deref ms.spec.database)
    if eqb_ℤ db.replicas (pos 0) then pure tt else (do
      _ ← ensure_replication_secret lib c ms
      reconcile_set c (name_of ms "-db-replica") (build_database_replica_stateful_set lib ms)
          (database_storage_spec ms) "db-data" (ms.metadata.name <> "-db-replica"))

  -- The read service: an error of `Get` other than "not found" is dropped.
  unfoldable pub reconcile_read_service : MusicService → Exec c.World (Unit {0})
  unfolding pure handle name_of
  reconcile_read_service ms =
      handle (c.get service (name_of ms "-db-read"))
        (λ e.
          if e.is_not_found then c.create service (build_database_read_service lib ms) else pure tt)
        (λ _. pure tt)

  unfoldable pub reconcile_services : MusicService → Exec c.World (Unit {0})
  unfolding ensure reconcile_read_service name_of deref pure lift ◌>>=◌
  reconcile_services ms = do
    ensure c service (name_of ms "-db-master") (ok (build_database_master_service lib ms))
    db ← lift (deref ms.spec.database)
    if ltb_ℤ (pos 0) db.replicas then reconcile_read_service ms else pure tt

  unfoldable pub update_replica_autoscaler :
      HorizontalPodAutoscaler → HorizontalPodAutoscaler → Exec c.World (Unit {0})
  unfolding deep_equal pure ◌>>=◌
  update_replica_autoscaler hpa desired =
      if deep_equal autoscaler_spec_discrete hpa.spec desired.spec
      then pure tt
      else (do _ ← c.update autoscaler (record hpa { spec = desired.spec }); pure tt)

  unfoldable pub replica_autoscaler :
      MusicService → DatabaseSpec → Option AutoscalingSpec → Exec c.World (Unit {0})
  unfolding create_missing update_replica_autoscaler pure lift ◌>>=◌ handle name_of
  replica_autoscaler ms db none = pure tt
  replica_autoscaler ms db (some _) =
      if eqb_ℤ db.replicas (pos 0)
      then pure tt
      else handle (c.get autoscaler (name_of ms "-db-replica-autoscaler"))
          (create_missing c autoscaler (build_database_replica_autoscaler lib ms))
          λ hpa. do
            desired ← lift (build_database_replica_autoscaler lib ms)
            update_replica_autoscaler hpa desired

  unfoldable pub reconcile_autoscaler : MusicService → Exec c.World (Unit {0})
  unfolding replica_autoscaler deref
  reconcile_autoscaler ms = do
    db ← lift (deref ms.spec.database)
    replica_autoscaler ms db db.autoscaling

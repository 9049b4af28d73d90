-- ===== src/Status/Manager.antt =====
-- internal/status/manager.go: the updates of the status. Each returns the MusicService as the
-- server sends it back.
pub mod Errors
pub mod History
pub mod Availability
use kind_music_streaming.Prelude.{String, ◌<>◌, true, false, Option, none, some, if◌then◌else◌}
use kind_music_streaming.Prelude.Int.{ℤ, pos, eqb_ℤ, ltb_ℤ}
use kind_music_streaming.Kube.{Time, StatefulSet}
use kind_music_streaming.Api.{DatabaseStatus, StorageSpec, MusicServiceStatus, MusicService}
use kind_music_streaming.Exec.{Error, Exec, pure, lift, deref, ◌>>=◌, handle}
use kind_music_streaming.Platform.{stateful_set, Library, Client}
use kind_music_streaming.Builder.{name_of, decimal_ℤ}
use kind_music_streaming.Status.Storage.{set_condition_now, update_storage_warnings}

abbrev pub with_status : MusicService → MusicServiceStatus → MusicService
with_status ms s = record ms { status = s }

-- `&DatabaseStatus{}`
abbrev pub empty_database_status : DatabaseStatus
empty_database_status = record {
  phase = "";
  master_ready = false;
  replicas_ready = pos 0;
  replica_ever_created = false;
  replica_last_seen = none;
  replica_deletion_detected = false;
  replication_ready = false;
}

unfoldable pub database_status : MusicService → DatabaseStatus
database_status ms = elim ms.status.database [ none ↦ empty_database_status | some d ↦ d ]

abbrev pub with_database : MusicService → DatabaseStatus → MusicService
with_database ms d = with_status ms (record (ms.status) { database = some d })

-- The fields of the status that a StatefulSet with so many replicas gives.
unfoldable pub with_counts : MusicService → ℤ → ℤ → String → MusicService
with_counts ms ready desired phase = with_status ms (record (ms.status) {
  ready_replicas = ready;
  desired_replicas = desired;
  observed_generation = ms.metadata.generation;
  phase = phase;
})

unfoldable pub with_master : StatefulSet → DatabaseStatus → DatabaseStatus
with_master sts d =
    let ready = ltb_ℤ (pos 0) sts.ready_replicas in
    record d { master_ready = ready; phase = if ready then "Ready" else "Pending" }

unfoldable pub with_replicas : Time → StatefulSet → DatabaseStatus → DatabaseStatus
with_replicas now sts d = record d {
  replicas_ready = sts.ready_replicas;
  replica_ever_created = true;
  replica_deletion_detected = false;
  replica_last_seen = some now;
  replication_ready = ltb_ℤ (pos 0) sts.ready_replicas;
}

-- The status of a failed round, but for its conditions.
unfoldable pub as_failed : Time → String → MusicService → MusicService
as_failed now message ms =
    with_status ms (record (ms.status) {
      phase = "Failed";
      last_error = message;
      last_reconcile_time = some now;
    })

module _ (c : Client) where
  unfoldable pub update_reconciled : MusicService → Exec c.World MusicService
  unfolding set_condition_now ◌>>=◌
  update_reconciled ms = do
    ms ← set_condition_now c ms "Reconciled" "True" "ReconcileSuccess" "Successfully reconciled"
    now ← c.now
    c.update_status
        (with_status ms (record (ms.status) { last_reconcile_time = some now; last_error = "" }))

  unfoldable pub update_error : MusicService → String → String → Exec c.World MusicService
  unfolding as_failed set_condition_now ◌>>=◌
  update_error ms reason message = do
    now ← c.now
    ms' ← set_condition_now c (as_failed now message ms) "Reconciled" "False" reason message
    c.update_status ms'

  -- The phase and the "Available" condition for the ready and the desired number of replicas.
  unfoldable pub set_available : MusicService → ℤ → ℤ → Exec c.World MusicService
  unfolding set_condition_now with_counts
  set_available ms ready desired =
      if eqb_ℤ ready (pos 0)
      then set_condition_now c (with_counts ms ready desired "Pending") "Available" "False"
          "PodsNotReady" "Waiting for pods to be ready"
      else if ltb_ℤ ready desired
      then set_condition_now c (with_counts ms ready desired "Progressing") "Available" "False"
          "PodsProgressing"
          ("Waiting for pods: " <> decimal_ℤ ready <> "/" <> decimal_ℤ desired <> " ready")
      else set_condition_now c (with_counts ms ready desired "Available") "Available" "True"
          "PodsReady" "All replicas are ready"

module _ (lib : Library) (c : Client) where
  unfoldable pub update_from_app_stateful_set :
      MusicService → StatefulSet → Exec c.World MusicService
  unfolding set_available update_storage_warnings lift deref ◌>>=◌
  update_from_app_stateful_set ms sts = do
    desired ← lift (deref sts.spec.replicas)
    ms' ← set_available c ms sts.ready_replicas desired
    ms'' ←
        update_storage_warnings lib c ms' sts "music-data" ms'.metadata.name ms'.spec.storage.size
          "StorageWarningApp"
    c.update_status ms''

  unfoldable pub master_storage :
      MusicService → StatefulSet → Option StorageSpec → Exec c.World MusicService
  unfolding update_storage_warnings pure
  master_storage ms sts none = pure ms
  master_storage ms sts (some storage) =
      update_storage_warnings lib c ms sts "db-data" (ms.metadata.name <> "-db-master") storage.size
        "StorageWarningDatabase"

  -- Any error of `Get` leaves the status of the master as it was.
  unfoldable pub check_master : MusicService → Exec c.World MusicService
  unfolding with_master master_storage database_status name_of pure lift deref handle ◌>>=◌
  check_master ms =
      handle (c.get stateful_set (name_of ms "-db-master")) (λ _. pure ms)
        λ sts. do
          let ms' = with_database ms (with_master sts (database_status ms))
          db ← lift (deref ms'.spec.database)
          master_storage ms' sts db.storage

  unfoldable pub replicas_missing : MusicService → Error → Exec c.World MusicService
  unfolding database_status set_condition_now pure
  replicas_missing ms e =
      if e.is_not_found
      then (if (database_status ms).replica_ever_created
          then set_condition_now c
              (with_database ms (record (database_status ms) { replica_deletion_detected = true }))
              "DatabaseReplicaHistory" "False" "ReplicaDeleted"
              "Replica StatefulSet was deleted after previously existing"
          else pure ms)
      else pure ms

  unfoldable pub replicas_present : MusicService → StatefulSet → Exec c.World MusicService
  unfolding with_replicas database_status set_condition_now ◌>>=◌
  replicas_present ms sts = do
    now ← c.now
    set_condition_now c (with_database ms (with_replicas now sts (database_status ms)))
        "DatabaseReplicaHistory" "True" "ReplicaObserved" "Replica StatefulSet is present"

  unfoldable pub check_replicas : MusicService → Exec c.World MusicService
  unfolding replicas_missing replicas_present name_of pure lift deref handle ◌>>=◌
  check_replicas ms = do
    db ← lift (deref ms.spec.database)
    if ltb_ℤ (pos 0) db.replicas
        then handle (c.get stateful_set (name_of ms "-db-replica")) (replicas_missing ms)
            (replicas_present ms)
        else pure ms

  unfoldable pub update_database : MusicService → Exec c.World MusicService
  unfolding check_master check_replicas database_status ◌>>=◌
  update_database ms = do
    ms' ← check_master (with_database ms (database_status ms))
    ms'' ← check_replicas ms'
    c.update_status ms''

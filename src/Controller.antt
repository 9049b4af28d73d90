-- ===== src/Controller.antt =====
-- internal/controller/musicservice_controller.go: one round of the reconciliation loop, and
-- internal/tone/formatter.go.
pub mod Authority
pub mod Rounds
pub mod Delay
pub mod Deletion
pub mod Total
use kind_music_streaming.Prelude.{ℕ, String, Bool, false, Option, none, some, if◌then◌else◌}
use kind_music_streaming.Prelude.Int.{ltb_ℤ}
use kind_music_streaming.Kube.{NamespacedName}
use kind_music_streaming.Api.{DatabaseHighAvailabilitySpec, MusicService}
use kind_music_streaming.Exec.{Exec, pure, raise, ◌>>=◌, ◌>>◌, handle}
use kind_music_streaming.Platform.{stateful_set, music_service, Library, Client}
use kind_music_streaming.Reconciler.App
use kind_music_streaming.Reconciler.App.{app_key}
use kind_music_streaming.Reconciler.Database
use kind_music_streaming.Status.Manager.{
  with_status, with_database, database_status, update_reconciled, update_error,
  update_from_app_stateful_set, update_database,
}

-- `ctrl.Result`, with the delay in seconds and 0 for none
pub record Result : Type 0 where
  pub requeue_after : ℕ

abbrev pub no_requeue : Result
no_requeue = record { requeue_after = 0 }

abbrev pub music_service_finalizer_name : String
music_service_finalizer_name = "music.mixcorp.org/finalizer"

-- `Formatter.Format`
unfoldable pub format : MusicService → String → String
format _ message = message

unfoldable pub database_enabled : MusicService → Bool
database_enabled ms = elim ms.spec.database [ none ↦ false | some db ↦ db.enabled ]

ha_flag : Option DatabaseHighAvailabilitySpec → Bool
ha_flag none = false
ha_flag (some ha) = ha.enabled

unfoldable pub database_ha_enabled : MusicService → Bool
unfolding ha_flag
database_ha_enabled ms = elim ms.spec.database [
  | none ↦ false
  | some db ↦ ha_flag db.high_availability
]

-- The status before the first step of a round.
unfoldable pub with_initial_status : MusicService → MusicService
with_initial_status ms = with_status ms (record (ms.status) {
  observed_generation = ms.metadata.generation;
  desired_replicas = ms.spec.replicas;
})

module _ (lib : Library) (c : Client) where
  unfoldable pub record_event : MusicService → String → String → Exec c.World (Unit {0})
  unfolding format
  record_event ms reason message = c.event ms "Normal" reason (format ms message)

  -- `if err := m; err != nil { return ctrl.Result{}, UpdateError(ms, reason, err.Error()) }`
  unfoldable pub or_report :
      MusicService → String → Exec c.World (Unit {0}) → Exec c.World Result → Exec c.World Result
  unfolding update_error pure handle ◌>>=◌
  or_report ms reason m rest =
      handle m (λ e. do _ ← update_error c ms reason e.message; pure no_requeue) (λ _. rest)

  unfoldable pub remove_finalizer : MusicService → Exec c.World Result
  unfolding record_event pure ◌>>=◌
  remove_finalizer ms =
      if lib.contains_finalizer ms.metadata.finalizers music_service_finalizer_name
      then (do
        record_event ms "Deleting" "Cleaning up resources"
        _ ← c.update music_service (record ms {
          metadata = record (ms.metadata) {
            finalizers = lib.remove_finalizer ms.metadata.finalizers music_service_finalizer_name;
          };
        })
        pure no_requeue)
      else pure no_requeue

  unfoldable pub ensure_finalizer : MusicService → Exec c.World MusicService
  unfolding pure
  ensure_finalizer ms =
      if lib.contains_finalizer ms.metadata.finalizers music_service_finalizer_name
      then pure ms
      else c.update music_service (record ms {
        metadata = record (ms.metadata) {
          finalizers = lib.add_finalizer ms.metadata.finalizers music_service_finalizer_name;
        };
      })

  -- The status from the application's StatefulSet. An error of `Get` is dropped.
  unfoldable pub sync_app : MusicService → Exec c.World MusicService
  unfolding update_from_app_stateful_set record_event app_key pure handle ◌>>=◌
  sync_app ms =
      handle (c.get stateful_set (app_key ms)) (λ _. pure ms)
        λ sts. do
          ms' ← update_from_app_stateful_set lib c ms sts
          record_event ms' "Ready" "Service is ready"
          pure ms'

  unfoldable pub sync_database : MusicService → Exec c.World MusicService
  unfolding update_database database_enabled pure
  sync_database ms = if database_enabled ms then update_database lib c ms else pure ms

  -- The rest of a round, after the objects have been reconciled.
  unfoldable pub finish : MusicService → Exec c.World Result
  unfolding sync_app sync_database update_reconciled pure ◌>>=◌
  finish ms = do
    ms₁ ← sync_app ms
    ms₂ ← sync_database ms₁
    ms₃ ← update_reconciled c ms₂
    pure (record {
      requeue_after = if ltb_ℤ ms₃.status.ready_replicas ms₃.spec.replicas then 5 else 30;
    })

  unfoldable pub reconcile_topology : MusicService → Exec c.World Result → Exec c.World Result
  unfolding or_report database_ha_enabled
  reconcile_topology ms rest =
      if database_ha_enabled ms
      then or_report ms "DBGaleraFailed" (Database.reconcile_galera lib c ms)
          (or_report ms "DBGaleraServicesFailed" (Database.reconcile_galera_services lib c ms) rest)
      else or_report ms "DBMasterFailed" (Database.reconcile_master lib c ms) (
          or_report ms "DBReplicasFailed" (Database.reconcile_replicas lib c ms)
            (or_report ms "DBServicesFailed" (Database.reconcile_services lib c ms) rest))

  unfoldable pub reconcile_database : MusicService → Exec c.World Result
  unfolding reconcile_topology or_report finish database_status
  reconcile_database ms =
      let ms' = with_database ms (database_status ms) in
      reconcile_topology ms'
        (or_report ms' "DBAutoscalerFailed" (Database.reconcile_autoscaler lib c ms') (finish ms'))

  unfoldable pub reconcile_objects : MusicService → Exec c.World Result
  unfolding or_report reconcile_database finish database_enabled
  reconcile_objects ms = or_report ms "ServiceFailed" (App.reconcile_service lib c ms) (
      or_report ms "StatefulSetFailed" (App.reconcile_stateful_set lib c ms) (
        or_report ms "AutoscalerFailed" (App.reconcile_autoscaler lib c ms)
          (if database_enabled ms then reconcile_database ms else finish ms)))

  -- The round for a MusicService that was read.
  unfoldable pub reconcile_found : MusicService → Exec c.World Result
  unfolding record_event remove_finalizer ensure_finalizer with_initial_status reconcile_objects
      ◌>>=◌
  reconcile_found ms = do
    record_event ms "Reconciling" "Starting reconciliation"
    elim ms.metadata.deletion_timestamp [
      | some _ ↦ remove_finalizer ms
      | none ↦ do ms' ← ensure_finalizer ms; reconcile_objects (with_initial_status ms')
    ]

  unfoldable pub reconcile : NamespacedName → Exec c.World Result
  unfolding reconcile_found pure raise handle
  reconcile request =
      handle (c.get music_service request)
        (λ e. if e.is_not_found then pure no_requeue else raise e) reconcile_found

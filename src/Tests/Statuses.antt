-- ===== src/Tests/Statuses.antt =====
-- The theorems on the status, for one MusicService.
use kind_music_streaming.Prelude.{
  ◌===◌, ◌≡◌, refl, true, false, some, List, [], ◌∷◌, ◌<>◌, if◌then◌else◌,
}
use kind_music_streaming.Prelude.Int.{pos}
use kind_music_streaming.Kube.{Condition}
use kind_music_streaming.Api.{MusicService}
use kind_music_streaming.Exec.{Outcome, ok}
use kind_music_streaming.Status.Conditions.{set_condition}
use kind_music_streaming.Status.Conditions.Laws.{
  condition_at, transition_time, condition_at-set_condition, set_condition-set_condition,
}
use kind_music_streaming.Status.Storage.{update_storage_warnings}
use kind_music_streaming.Status.Storage.Warnings.{
  Smaller, Unbound, Warns, update_storage_warnings-Warns,
}
use kind_music_streaming.Status.Manager.{
  set_available, update_error, check_master, check_replicas, database_status,
}
use kind_music_streaming.Status.Manager.Availability.{Shows, set_available-Shows}
use kind_music_streaming.Status.Manager.History.{Continues, update_database-Continues}
use kind_music_streaming.Status.Manager.Errors.{Tells, update_error-Tells}
use kind_music_streaming.Tests.Memory.{Cluster, get, memory, list_claims}
use kind_music_streaming.Tests.Built.{app_set}
use kind_music_streaming.Tests.Examples.{library, radio, cluster}

abbrev ready : Condition
ready = record {
  type = "Available";
  status = "True";
  observed_generation = pos 3;
  last_transition_time = 0;
  reason = "PodsReady";
  message = "All replicas are ready";
}

-- One condition of the type, with the other status.
abbrev before : List Condition
before =
    record ready { type = "Reconciled"; last_transition_time = 5 }
    ∷ record ready { status = "False"; last_transition_time = 7 }
    ∷ []

condition_at-set_condition_example : condition_at "Available" (set_condition 9 ready before) ≡ (
    if ready.type === "Available"
    then some (record ready {
      last_transition_time = transition_time 9 ready (condition_at ready.type before);
    })
    else condition_at "Available" before)
condition_at-set_condition_example = condition_at-set_condition 9 ready before "Available"

set_condition-set_condition_example :
    set_condition 11 ready (set_condition 9 ready before) ≡ set_condition 9 ready before
set_condition-set_condition_example = set_condition-set_condition 9 11 ready before

abbrev result : Outcome MusicService → MusicService
result (ok ms) = ms
result _ = radio

unfoldable available : Outcome MusicService × Cluster
unfolding set_available
available = set_available memory radio (pos 3) (pos 3) cluster

available_run :
    set_available memory radio (pos 3) (pos 3) cluster ≡ (ok (result available.0), available.1)
unfolding available
available_run = refl

set_available-Shows_example : Shows (result available.0) (pos 3) (pos 3)
set_available-Shows_example =
    set_available-Shows memory radio (result available.0) (pos 3) (pos 3) cluster available.1
      available_run

-- Replicas were seen before, and the cluster has none.
abbrev remembered : MusicService
remembered = record radio {
  status = record (radio.status) {
    database = some (record {
      phase = "";
      master_ready = false;
      replicas_ready = pos 2;
      replica_ever_created = true;
      replica_last_seen = some 5;
      replica_deletion_detected = false;
      replication_ready = true;
    });
  };
}

unfoldable master_checked : Outcome MusicService × Cluster
unfolding check_master
master_checked = check_master library memory remembered cluster

master_checked_run :
    check_master library memory remembered cluster
    ≡ (ok (result master_checked.0), master_checked.1)
unfolding master_checked get
master_checked_run = refl

unfoldable replicas_checked : Outcome MusicService × Cluster
unfolding check_replicas master_checked
replicas_checked = check_replicas library memory (result master_checked.0) master_checked.1

replicas_checked_run :
    check_replicas library memory (result master_checked.0) master_checked.1
    ≡ (ok (result replicas_checked.0), replicas_checked.1)
unfolding replicas_checked get
replicas_checked_run = refl

update_database-Continues_example :
    Continues (database_status remembered) (database_status (result replicas_checked.0))
update_database-Continues_example =
    update_database-Continues library memory remembered (result master_checked.0)
      (result replicas_checked.0) cluster master_checked.1 replicas_checked.1 master_checked_run
      replicas_checked_run

update_error-Tells_example :
    (x : MusicService) × (update_error memory radio "ServiceFailed" "timeout" cluster
      ≡ memory.update_status x (record cluster { clock = 1002 }))
    × Tells radio x "ServiceFailed" "timeout"
update_error-Tells_example =
    update_error-Tells library memory radio "ServiceFailed" "timeout" 1000 1001 cluster
      (record cluster { clock = 1001 }) (record cluster { clock = 1002 }) refl refl

claims_listed : memory.list radio.metadata.namespace cluster ≡ (ok cluster.claims, cluster)
unfolding list_claims
claims_listed = refl

unfoldable warned : Outcome MusicService × Cluster
unfolding update_storage_warnings
warned =
    update_storage_warnings library memory radio app_set "music-data" "radio" "10Gi"
      "StorageWarningApp" cluster

warned_run :
    update_storage_warnings library memory radio app_set "music-data" "radio" "10Gi"
      "StorageWarningApp" cluster
    ≡ (ok (result warned.0), warned.1)
unfolding warned app_set list_claims
warned_run = refl

update_storage_warnings-Warns_example :
    Warns radio
      (result warned.0)
      "StorageWarningApp"
      (Smaller library app_set "10Gi")
      (Unbound cluster.claims ("music-data" <> "-" <> "radio" <> "-"))
update_storage_warnings-Warns_example =
    update_storage_warnings-Warns library memory radio (result warned.0) app_set cluster cluster
      warned.1 cluster.claims "music-data" "radio" "10Gi" "StorageWarningApp" claims_listed
      warned_run

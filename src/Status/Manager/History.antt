-- ===== src/Status/Manager/History.antt =====
-- What the manager remembers of the replicas.
use kind_music_streaming.Prelude.{◌≡◌, true, arith}
use kind_music_streaming.Api.{DatabaseStatus, MusicService}
use kind_music_streaming.Exec.{ok}
use kind_music_streaming.Platform.{Library, Client}
use kind_music_streaming.Status.Storage.{set_condition_now, update_storage_warnings}
use kind_music_streaming.Status.Manager.{
  database_status, check_master, master_storage, check_replicas, replicas_missing, replicas_present,
  with_master, with_replicas,
}

-- Where a deletion of the replicas is noted, there were replicas before.
abbrev pub IsHistory : DatabaseStatus → Type 0
IsHistory d = d.replica_deletion_detected ≡ true → d.replica_ever_created ≡ true

-- The history after a check, from the one before.
pub record Continues (d d' : DatabaseStatus) : Type 0 where
  pub consistent : IsHistory d → IsHistory d'
  pub remembers : d.replica_ever_created ≡ true → d'.replica_ever_created ≡ true

module _ (lib : Library) (c : Client) (ms ms' : MusicService) (w w' : c.World) where
  check_replicas-Continues :
      check_replicas lib c ms w ≡ (ok ms', w')
      → Continues (database_status ms) (database_status ms')
  unfolding check_replicas replicas_missing replicas_present set_condition_now with_replicas
      database_status
  check_replicas-Continues run = record { consistent = ground arith; remembers = ground arith }

  check_master-Continues :
      check_master lib c ms w ≡ (ok ms', w') → Continues (database_status ms) (database_status ms')
  unfolding check_master master_storage set_condition_now update_storage_warnings with_master
      database_status
  check_master-Continues run = record { consistent = ground arith; remembers = ground arith }

-- A round of the status manager, up to the call that writes the status: whatever the server and
-- the clock answer, the history of the replicas stays consistent, and that there were replicas is
-- never forgotten.
pub update_database-Continues :
    (lib : Library) (c : Client) (ms ms₁ ms₂ : MusicService) (w w₁ w₂ : c.World)
    → check_master lib c ms w ≡ (ok ms₁, w₁)
    → check_replicas lib c ms₁ w₁ ≡ (ok ms₂, w₂)
    → Continues (database_status ms) (database_status ms₂)
update_database-Continues lib c ms ms₁ ms₂ w w₁ w₂ master replicas =
    let first = check_master-Continues lib c ms ms₁ w w₁ master in
    let second = check_replicas-Continues lib c ms₁ ms₂ w₁ w₂ replicas in
    record {
      consistent = λ h. second.consistent (first.consistent h);
      remembers = λ h. second.remembers (first.remembers h);
    }

-- ===== src/Controller/Deletion.antt =====
-- A round for a MusicService that is being deleted.
use kind_music_streaming.Prelude.{String, ◌≡◌, some}
use kind_music_streaming.Kube.{Time}
use kind_music_streaming.Api.{MusicService}
use kind_music_streaming.Exec.Keeps.{Keeps, keeps_rules, Keeps-bind}
use kind_music_streaming.Platform.{music_service, Library, Client}
use kind_music_streaming.Controller.{record_event, remove_finalizer, reconcile_found}

module _ (lib : Library) (c : Client) (P : c.World → Type 0)
    (events : (x : MusicService) (type reason message : String)
      → Keeps P (c.event x type reason message))
    (updates : (x : MusicService) → Keeps P (c.update music_service x)) where
  event-Keeps :
      (ms : MusicService) (reason message : String) → Keeps P (record_event lib c ms reason message)
  unfolding record_event
  event-Keeps ms reason message = events ms _ _ _

  remove_finalizer-Keeps : (ms : MusicService) → Keeps P (remove_finalizer lib c ms)
  unfolding remove_finalizer
  remove_finalizer-Keeps ms = search (keeps_rules, events, updates) depth 8

-- A MusicService that is being deleted is not reconciled: its round records events and updates
-- MusicServices, and makes no other call.
pub reconcile_found-deleting :
    (lib : Library) (c : Client) (ms : MusicService) (deleted_at : Time) (P : c.World → Type 0)
    → ms.metadata.deletion_timestamp ≡ some deleted_at
    → ((x : MusicService) (type reason message : String) → Keeps P (c.event x type reason message))
    → ((x : MusicService) → Keeps P (c.update music_service x))
    → Keeps P (reconcile_found lib c ms)
unfolding reconcile_found
reconcile_found-deleting lib c ms deleted_at P deleting events updates =
    Keeps-bind (record_event lib c ms "Reconciling" "Starting reconciliation") _
      (event-Keeps lib c P events updates ms _ _)
      (λ _. rw deleting (remove_finalizer-Keeps lib c P events updates ms))

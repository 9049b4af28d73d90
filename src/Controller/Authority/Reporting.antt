-- ===== src/Controller/Authority/Reporting.antt =====
-- The calls that report on a round, and the end of a round.
use kind_music_streaming.Prelude.{String, Option, none, some}
use kind_music_streaming.Prelude.Int.{ℤ}
use kind_music_streaming.Kube.{NamespacedName, StatefulSet}
use kind_music_streaming.Api.{MusicService, StorageSpec}
use kind_music_streaming.Exec.{Error, Exec}
use kind_music_streaming.Exec.Keeps.{Keeps, keeps_rules, Keeps-pure, Keeps-bind, Keeps-handle}
use kind_music_streaming.Platform.{Kind, Library, Client}
use kind_music_streaming.Status.Storage.{
  set_condition_now, list_pvcs_by_prefix, update_storage_warnings,
}
use kind_music_streaming.Status.Manager.{
  update_reconciled, update_error, as_failed, set_available, update_from_app_stateful_set,
  master_storage, check_master, replicas_missing, replicas_present, check_replicas, update_database,
}
use kind_music_streaming.Controller.{
  Result, record_event, or_report, sync_app, sync_database, finish,
}

-- The calls that report on a round.
pub record Reports (c : Client) (P : c.World → Type 0) : Type 0 where
  pub clock : Keeps P c.now
  pub events :
      (x : MusicService) (type reason message : String) → Keeps P (c.event x type reason message)
  pub statuses : (x : MusicService) → Keeps P (c.update_status x)

module _ (lib : Library) (c : Client) (P : c.World → Type 0) (r : Reports c P)
    (gets : (k : Kind) (key : NamespacedName) → Keeps P (c.get k key))
    (lists : (namespace : String) → Keeps P (c.list namespace)) where
  set_condition-Keeps :
      (x : MusicService) (type status reason message : String)
      → Keeps P (set_condition_now c x type status reason message)
  unfolding set_condition_now
  set_condition-Keeps x type status reason message = search (keeps_rules, r.clock)

  pub update_error-Keeps :
      (x : MusicService) (reason message : String) → Keeps P (update_error c x reason message)
  unfolding update_error
  update_error-Keeps x reason message = Keeps-bind c.now _ r.clock (λ now.
      Keeps-bind (set_condition_now c (as_failed now message x) "Reconciled" "False" reason message)
        _ (set_condition-Keeps (as_failed now message x) "Reconciled" "False" reason message)
        r.statuses)

  pub update_reconciled-Keeps : (x : MusicService) → Keeps P (update_reconciled c x)
  unfolding update_reconciled
  update_reconciled-Keeps x =
      Keeps-bind
        (set_condition_now c x "Reconciled" "True" "ReconcileSuccess" "Successfully reconciled") _
        (set_condition-Keeps x _ _ _ _) (λ y. Keeps-bind c.now _ r.clock (λ now. r.statuses _))

  list-Keeps : (a b n : String) → Keeps P (list_pvcs_by_prefix c a b n)
  unfolding list_pvcs_by_prefix
  list-Keeps a b n = search (keeps_rules, lists)

  warnings-Keeps :
      (x : MusicService) (sts : StatefulSet) (a b s t : String)
      → Keeps P (update_storage_warnings lib c x sts a b s t)
  unfolding update_storage_warnings
  warnings-Keeps x sts a b s t = search (keeps_rules, set_condition-Keeps, list-Keeps)

  available-Keeps : (x : MusicService) (m n : ℤ) → Keeps P (set_available c x m n)
  unfolding set_available
  available-Keeps x m n = search (keeps_rules, set_condition-Keeps)

  from_app-Keeps :
      (x : MusicService) (sts : StatefulSet) → Keeps P (update_from_app_stateful_set lib c x sts)
  unfolding update_from_app_stateful_set
  from_app-Keeps x sts = search (keeps_rules, available-Keeps, warnings-Keeps, r.statuses) depth 8

  storage-Keeps :
      (x : MusicService) (sts : StatefulSet) (o : Option StorageSpec)
      → Keeps P (master_storage lib c x sts o)
  unfolding master_storage
  storage-Keeps x sts none = Keeps-pure x
  storage-Keeps x sts (some s) = warnings-Keeps x sts _ _ _ _

  check_master-Keeps : (x : MusicService) → Keeps P (check_master lib c x)
  unfolding check_master
  check_master-Keeps x = search (keeps_rules, gets, storage-Keeps) depth 8

  missing-Keeps : (x : MusicService) (e : Error) → Keeps P (replicas_missing lib c x e)
  unfolding replicas_missing
  missing-Keeps x e = search (keeps_rules, set_condition-Keeps)

  present-Keeps : (x : MusicService) (sts : StatefulSet) → Keeps P (replicas_present lib c x sts)
  unfolding replicas_present
  present-Keeps x sts = search (keeps_rules, r.clock, set_condition-Keeps)

  check_replicas-Keeps : (x : MusicService) → Keeps P (check_replicas lib c x)
  unfolding check_replicas
  check_replicas-Keeps x = search (keeps_rules, gets, missing-Keeps, present-Keeps) depth 8

  update_database-Keeps : (x : MusicService) → Keeps P (update_database lib c x)
  unfolding update_database
  update_database-Keeps x =
      search (keeps_rules, check_master-Keeps, check_replicas-Keeps, r.statuses) depth 8

  event-Keeps :
      (x : MusicService) (reason message : String) → Keeps P (record_event lib c x reason message)
  unfolding record_event
  event-Keeps x reason message = r.events x _ _ _

  sync_app-Keeps : (x : MusicService) → Keeps P (sync_app lib c x)
  unfolding sync_app
  sync_app-Keeps x = search (keeps_rules, gets, from_app-Keeps, event-Keeps) depth 8

  sync_database-Keeps : (x : MusicService) → Keeps P (sync_database lib c x)
  unfolding sync_database
  sync_database-Keeps x = search (keeps_rules, update_database-Keeps)

  pub finish-Keeps : (x : MusicService) → Keeps P (finish lib c x)
  unfolding finish
  finish-Keeps x =
      search (keeps_rules, sync_app-Keeps, sync_database-Keeps, update_reconciled-Keeps) depth 8

  pub or_report-Keeps :
      (x : MusicService) (reason : String) (m : Exec c.World (Unit {0}))
      (rest : Exec c.World Result)
      → Keeps P m
      → Keeps P rest
      → Keeps P (or_report lib c x reason m rest)
  unfolding or_report
  or_report-Keeps x reason m rest km kr =
      Keeps-handle m _ _ km
        (λ e.
          Keeps-bind (update_error c x reason e.message) _ (update_error-Keeps x reason e.message)
            (λ _. Keeps-pure _))
        (λ _. kr)

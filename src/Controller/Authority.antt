-- ===== src/Controller/Authority.antt =====
-- What a round of the loop may do to the cluster, whatever the server answers.
mod Reporting
pub use Reporting.*
use kind_music_streaming.Prelude.{String, Option, none, some}
use kind_music_streaming.Prelude.Int.{ℤ}
use kind_music_streaming.Kube.{NamespacedName, StatefulSet, ObjectMeta}
use kind_music_streaming.Api.{MusicService, MusicServiceStatus, StorageSpec}
use kind_music_streaming.Exec.{Error, Exec}
use kind_music_streaming.Exec.Keeps.{
  Keeps, keeps_rules, Keeps-pure, Keeps-if, Keeps-bind, Keeps-handle,
}
use kind_music_streaming.Platform.{Kind, Library, Client}
use kind_music_streaming.Builder.Ownership.{IsOwned}
use kind_music_streaming.Reconciler.Database.{database_storage_spec}
use kind_music_streaming.Reconciler.Authority.{
  Grants, reconcile_service-Keeps, reconcile_stateful_set-Keeps, reconcile_autoscaler-Keeps,
  reconcile_galera-Keeps, reconcile_galera_services-Keeps, reconcile_master-Keeps,
  reconcile_replicas-Keeps, reconcile_services-Keeps, reconcile_db_autoscaler-Keeps,
}
use kind_music_streaming.Status.Storage.{
  set_condition_now, list_pvcs_by_prefix, update_storage_warnings,
}
use kind_music_streaming.Status.Manager.{
  with_status, with_database, database_status, update_reconciled, update_error, as_failed,
  set_available, update_from_app_stateful_set, master_storage, check_master, replicas_missing,
  replicas_present, check_replicas, update_database,
}
use kind_music_streaming.Controller.{
  Result, database_enabled, database_ha_enabled, record_event, or_report, sync_app, sync_database,
  finish, reconcile_topology, reconcile_database, reconcile_objects,
}

with_status-IsOwned :
    (lib : Library) (ms : MusicService) (s : MusicServiceStatus) (meta : ObjectMeta)
    → IsOwned lib (with_status ms s) meta
    → IsOwned lib ms meta
with_status-IsOwned lib ms s meta o = record {
  suffix = o.suffix;
  name = o.name;
  namespace = o.namespace;
  owner = o.owner;
}

-- What may be done does not depend on the status.
pub with_status-Grants :
    (lib : Library) (c : Client) (ms : MusicService) (P : c.World → Type 0) (s : MusicServiceStatus)
    → Grants lib c ms P
    → Grants lib c (with_status ms s) P
unfolding database_storage_spec
with_status-Grants lib c ms P s g = record {
  gets = g.gets;
  lists = g.lists;
  random = g.random;
  creates = λ k o owned. g.creates k o (with_status-IsOwned lib ms s _ owned);
  updates_set = g.updates_set;
  updates_autoscaler = g.updates_autoscaler;
  updates_secret = g.updates_secret;
  grows = g.grows;
  deletes_autoscaler = g.deletes_autoscaler;
  deletes_set = g.deletes_set;
  deletes_claim = g.deletes_claim;
}

module _ (lib : Library) (c : Client) (P : c.World → Type 0) (r : Reports c P) where
  or_report_granted :
      (ms : MusicService) (g : Grants lib c ms P) (x : MusicService) (reason : String)
      (m : Exec c.World (Unit {0})) (rest : Exec c.World Result)
      → Keeps P m
      → Keeps P rest
      → Keeps P (or_report lib c x reason m rest)
  or_report_granted ms g = or_report-Keeps lib c P r g.gets g.lists

  topology-Keeps :
      (ms : MusicService) (rest : Exec c.World Result)
      → Grants lib c ms P
      → Keeps P rest
      → Keeps P (reconcile_topology lib c ms rest)
  unfolding reconcile_topology
  topology-Keeps ms rest g k =
      Keeps-if (database_ha_enabled ms) _ _
        (λ _.
          step "DBGaleraFailed" _ _ (reconcile_galera-Keeps lib c ms P g)
            (step "DBGaleraServicesFailed" _ _ (reconcile_galera_services-Keeps lib c ms P g) k))
        (λ _. step "DBMasterFailed" _ _ (reconcile_master-Keeps lib c ms P g) (
          step "DBReplicasFailed" _ _ (reconcile_replicas-Keeps lib c ms P g)
            (step "DBServicesFailed" _ _ (reconcile_services-Keeps lib c ms P g) k)))
    where
      step :
          (reason : String) (m : Exec c.World (Unit {0})) (next : Exec c.World Result)
          → Keeps P m
          → Keeps P next
          → Keeps P (or_report lib c ms reason m next)
      step = or_report_granted ms g ms

  database-Keeps : (ms : MusicService) → Grants lib c ms P → Keeps P (reconcile_database lib c ms)
  unfolding reconcile_database
  database-Keeps ms g =
      let ms' = with_database ms (database_status ms) in
      let g' = with_status-Grants lib c ms P _ g in
      topology-Keeps ms' _ g' (
        or_report_granted ms' g' ms' _ _ _ (reconcile_db_autoscaler-Keeps lib c ms' P g')
          (finish-Keeps lib c P r g.gets g.lists ms'))

  -- What the permitted calls and the reports keep of the world is kept by a round. So a round that
  -- brings the objects of a MusicService to its spec makes these calls only, besides reads: it
  -- creates objects that the MusicService owns, updates StatefulSets, autoscalers and secrets,
  -- enlarges volume claims, records events, and writes statuses. It deletes an autoscaler only if
  -- the spec has no autoscaling, and StatefulSets and volume claims only if the storage of the
  -- application or of the database has the policy Recreate; it never updates or deletes a service,
  -- nor deletes a secret.
  pub reconcile_objects-Keeps :
      (ms : MusicService) → Grants lib c ms P → Keeps P (reconcile_objects lib c ms)
  unfolding reconcile_objects
  reconcile_objects-Keeps ms g = step _ _ _ (reconcile_service-Keeps lib c ms P g) (
      step _ _ _ (reconcile_stateful_set-Keeps lib c ms P g) (
        step _ _ _ (reconcile_autoscaler-Keeps lib c ms P g) (
          Keeps-if (database_enabled ms) _ _ (λ _. database-Keeps ms g)
            (λ _. finish-Keeps lib c P r g.gets g.lists ms))))
    where
      step :
          (reason : String) (m : Exec c.World (Unit {0})) (next : Exec c.World Result)
          → Keeps P m
          → Keeps P next
          → Keeps P (or_report lib c ms reason m next)
      step = or_report_granted ms g ms

-- ===== src/Controller/Total.antt =====
-- Where a round ends on a steady server, and with which delay.
mod Statuses
use kind_music_streaming.Prelude.{
  arith, ℕ, String, ◌≡◌, refl, Bool, true, false, ◌⊎◌, inl, inr, Option, none, some, Option-cases,
  if◌then◌else◌,
}
use kind_music_streaming.Prelude.Int.{ltb_ℤ}
use kind_music_streaming.Kube.{Time, NamespacedName}
use kind_music_streaming.Api.{DatabaseSpec, MusicService}
use kind_music_streaming.Exec.{Error, Outcome, ok, Exec, pure, raise, ◌>>=◌}
use kind_music_streaming.Exec.Ensures.{
  Ends, value, fails, Ensures-weaken, Ensures, Safe, Ensures-pure, Ensures-raise, Ensures-if,
  Ensures-bind, Ensures-handle,
}
use kind_music_streaming.Platform.{stateful_set, music_service, Library, Client}
use kind_music_streaming.Builder.{IsBuildable}
use kind_music_streaming.Reconciler.App
use kind_music_streaming.Reconciler.App.{app_key}
use kind_music_streaming.Reconciler.Database
use kind_music_streaming.Reconciler.Total.{
  other_error, Steady, reconcile_service-Safe, reconcile_stateful_set-Safe,
  reconcile_autoscaler-Safe, reconcile_galera-Safe, reconcile_galera_services-Safe,
  reconcile_master-Safe, reconcile_replicas-Safe, reconcile_services-Safe,
  reconcile_db_autoscaler-Safe,
}
use kind_music_streaming.Status.Manager.{with_database, database_status, update_error}
use kind_music_streaming.Controller.{
  Result, no_requeue, music_service_finalizer_name, database_enabled, database_ha_enabled,
  with_initial_status, record_event, or_report, remove_finalizer, ensure_finalizer, sync_app,
  sync_database, finish, reconcile_topology, reconcile_database, reconcile_objects, reconcile_found,
  reconcile,
}
use kind_music_streaming.Controller.Total.Statuses.{
  update_reconciled-Safe, update_error-Safe, update_from_app-Safe, update_database-Safe,
}

-- The delays of a round that is complete.
abbrev pub IsComplete : Result → Type 0
IsComplete r = (r.requeue_after ≡ 5) ⊎ (r.requeue_after ≡ 30)

-- They, or no delay after an error in `E`, which has been written to the status.
abbrev pub IsPaced : (Error → Type 0) → Result → Type 0
IsPaced E r = IsComplete r ⊎ ((r.requeue_after ≡ 0) × (e : Error) × E e)

abbrev pub IsDelay : Result → Type 0
IsDelay r = IsComplete r ⊎ (r.requeue_after ≡ 0)

paced-IsDelay : {E : Error → Type 0} (r : Result) → IsPaced E r → IsDelay r
paced-IsDelay r (inl complete) = inl complete
paced-IsDelay r (inr (no_delay, _, _)) = inr no_delay

delay-IsComplete : (waits : Bool) → IsComplete (record { requeue_after = if waits then 5 else 30 })
delay-IsComplete true = inl refl
delay-IsComplete false = inr refl

-- A database that is enabled is there.
pub enabled_database :
    (ms : MusicService)
    → database_enabled ms ≡ true
    → (db : DatabaseSpec) × (ms.spec.database ≡ some db)
unfolding database_enabled
enabled_database ms = some_of ms.spec.database
  where
    some_of :
        (o : Option DatabaseSpec)
        → elim o [ none ↦ false | some db ↦ db.enabled ] ≡ true
        → (db : DatabaseSpec) × (o ≡ some db)
    some_of none enabled = ground arith
    some_of (some db) enabled = (db, refl)

module _ (E : Error → Type 0) (lib : Library) (c : Client) (steady : Steady E lib c) where
  event-Safe :
      (ms : MusicService) (reason message : String) → Safe E (record_event lib c ms reason message)
  unfolding record_event
  event-Safe ms reason message = steady.events ms "Normal" reason message

  or_report-IsPaced :
      (ms : MusicService) (reason : String) (m : Exec c.World (Unit {0}))
      (rest : Exec c.World Result)
      → Safe E m
      → Ensures E (IsPaced E) rest
      → Ensures E (IsPaced E) (or_report lib c ms reason m rest)
  unfolding or_report
  or_report-IsPaced ms reason m rest safe after =
      Ensures-handle m _ _ safe
        (λ e x.
          Ensures-bind (update_error c ms reason e.message) _
            (update_error-Safe E lib c steady ms reason e.message)
            (λ _ _. Ensures-pure no_requeue (inr (refl, e, x))))
        (λ _ _. after)

  remove_finalizer-IsDelay : (ms : MusicService) → Ensures E IsDelay (remove_finalizer lib c ms)
  unfolding remove_finalizer
  remove_finalizer-IsDelay ms =
      Ensures-if (lib.contains_finalizer ms.metadata.finalizers music_service_finalizer_name) _ _
        (λ _.
          Ensures-bind (record_event lib c ms "Deleting" "Cleaning up resources") _
            (event-Safe ms _ _)
            (λ _ _.
              Ensures-bind _ _ (steady.updates music_service _)
                (λ _ _. Ensures-pure no_requeue (inr refl))))
        (λ _. Ensures-pure no_requeue (inr refl))

  ensure_finalizer-IsBuildable :
      (ms : MusicService)
      → IsBuildable lib ms.spec
      → Ensures E (λ ms'. IsBuildable lib ms'.spec) (ensure_finalizer lib c ms)
  unfolding ensure_finalizer
  ensure_finalizer-IsBuildable ms b =
      Ensures-if (lib.contains_finalizer ms.metadata.finalizers music_service_finalizer_name) _ _
        (λ _. Ensures-pure ms b) (λ _. steady.updates music_service _)

  sync_app-Safe : (ms : MusicService) → Safe E (sync_app lib c ms)
  unfolding sync_app
  sync_app-Safe ms =
      Ensures-handle (c.get stateful_set (app_key ms)) _ _ (steady.gets stateful_set (app_key ms))
        (λ _ _. Ensures-pure ms tt)
        (λ sts have. Ensures-bind _ _ (update_from_app-Safe E lib c steady ms sts have) (λ ms' _.
          Ensures-bind (record_event lib c ms' "Ready" "Service is ready") _ (event-Safe ms' _ _)
            (λ _ _. Ensures-pure ms' tt)))

  sync_database-Safe : (ms : MusicService) → Safe E (sync_database lib c ms)
  unfolding sync_database
  sync_database-Safe ms =
      Ensures-if (database_enabled ms) _ _
        (λ enabled.
          let (db, given) = enabled_database ms enabled in
          update_database-Safe E lib c steady db ms given)
        (λ _. Ensures-pure ms tt)

  finish-IsPaced : (ms : MusicService) → Ensures E (IsPaced E) (finish lib c ms)
  unfolding finish
  finish-IsPaced ms = Ensures-bind (sync_app lib c ms) _ (sync_app-Safe ms) (λ ms₁ _.
      Ensures-bind (sync_database lib c ms₁) _ (sync_database-Safe ms₁) (λ ms₂ _.
        Ensures-bind _ _ (update_reconciled-Safe E lib c steady ms₂) (λ ms₃ _.
          Ensures-pure _
            (inl (delay-IsComplete (ltb_ℤ ms₃.status.ready_replicas ms₃.spec.replicas))))))

  module _ (ms : MusicService) (b : IsBuildable lib ms.spec) where
    topology-IsPaced :
        (db : DatabaseSpec) (rest : Exec c.World Result)
        → ms.spec.database ≡ some db
        → Ensures E (IsPaced E) rest
        → Ensures E (IsPaced E) (reconcile_topology lib c ms rest)
    unfolding reconcile_topology
    topology-IsPaced db rest given after =
        Ensures-if (database_ha_enabled ms) _ _
          (λ _.
            or_report-IsPaced ms _ _ _ (reconcile_galera-Safe E lib c steady ms b)
              (or_report-IsPaced ms _ _ _ (reconcile_galera_services-Safe E lib c steady ms) after))
          (λ _. or_report-IsPaced ms _ _ _ (reconcile_master-Safe E lib c steady ms b) (
            or_report-IsPaced ms _ _ _ (reconcile_replicas-Safe E lib c steady ms db given b) (
              or_report-IsPaced ms _ _ _ (reconcile_services-Safe E lib c steady ms db given)
                after)))

  database-IsPaced :
      (ms : MusicService) (db : DatabaseSpec)
      → IsBuildable lib ms.spec
      → ms.spec.database ≡ some db
      → Ensures E (IsPaced E) (reconcile_database lib c ms)
  unfolding reconcile_database
  database-IsPaced ms db b given =
      let ms' = with_database ms (database_status ms) in
      topology-IsPaced ms' b db _ given (
        or_report-IsPaced ms' _ _ _ (reconcile_db_autoscaler-Safe E lib c steady ms' db given)
          (finish-IsPaced ms'))

  objects-IsPaced :
      (ms : MusicService)
      → IsBuildable lib ms.spec
      → Ensures E (IsPaced E) (reconcile_objects lib c ms)
  unfolding reconcile_objects
  objects-IsPaced ms b = or_report-IsPaced ms _ _ _ (reconcile_service-Safe E lib c steady ms) (
      or_report-IsPaced ms _ _ _ (reconcile_stateful_set-Safe E lib c steady ms b) (
        or_report-IsPaced ms _ _ _ (reconcile_autoscaler-Safe E lib c steady ms) (
          Ensures-if (database_enabled ms) _ _
            (λ enabled.
              let (db, given) = enabled_database ms enabled in database-IsPaced ms db b given)
            (λ _. finish-IsPaced ms))))

  found-IsDelay :
      (ms : MusicService) → IsBuildable lib ms.spec → Ensures E IsDelay (reconcile_found lib c ms)
  unfolding reconcile_found
  found-IsDelay ms b =
      Ensures-bind (record_event lib c ms "Reconciling" "Starting reconciliation") _
        (event-Safe ms _ _) (λ _ _. found ms.metadata.deletion_timestamp)
    where
      found :
          (o : Option Time)
          → Ensures E IsDelay (elim o [
            | some _ ↦ remove_finalizer lib c ms
            | none ↦ do
              ms' ← ensure_finalizer lib c ms
              reconcile_objects lib c (with_initial_status ms')
          ])
      found (some _) = remove_finalizer-IsDelay ms
      found none =
          Ensures-bind (ensure_finalizer lib c ms) _ (ensure_finalizer-IsBuildable ms b) (λ ms' b'.
            Ensures-weaken _ paced-IsDelay (objects-IsPaced (with_initial_status ms') b'))

  -- Where the API server answers or fails with an error in `E`, never with a panic, the StatefulSets
  -- that it hands out say how many replicas they want, and its MusicServices have quantities for
  -- their sizes and 0 to 10 replicas of their databases: from every state of the world a round ends,
  -- with an error in `E` or with a delay of 0, 5 or 30 seconds.
  pub reconcile-ends : (request : NamespacedName) → Ensures E IsDelay (reconcile lib c request)
  unfolding reconcile
  reconcile-ends request =
      Ensures-handle (c.get music_service request) _ _ (steady.gets music_service request)
        (λ e unread.
          Ensures-if e.is_not_found _ _ (λ _. Ensures-pure no_requeue (inr refl))
            (λ other. Ensures-raise e (other_error E lib c steady e unread other)))
        (λ ms b. found-IsDelay ms b)

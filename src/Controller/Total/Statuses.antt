-- ===== src/Controller/Total/Statuses.antt =====
-- The updates of the status.
use kind_music_streaming.Prelude.{String, ◌≡◌, refl, Option, none, some}
use kind_music_streaming.Prelude.Int.{ℤ, pos, eqb_ℤ, ltb_ℤ}
use kind_music_streaming.Kube.{StatefulSet}
use kind_music_streaming.Api.{StorageSpec, DatabaseSpec, MusicService}
use kind_music_streaming.Exec.{Error, lift, deref}
use kind_music_streaming.Exec.Ensures.{
  Returns, value, Ensures, Safe, Ensures-pure, Ensures-lift, Ensures-if, Ensures-bind,
  Ensures-handle,
}
use kind_music_streaming.Platform.{stateful_set, Library, Client}
use kind_music_streaming.Builder.{HasReplicas, name_of}
use kind_music_streaming.Reconciler.Total.{Steady}
use kind_music_streaming.Status.Storage.{
  list_pvcs_by_prefix, set_condition_now, storage_healthy, update_storage_warnings, shrinks,
  any_unbound,
}
use kind_music_streaming.Status.Manager.{
  with_database, with_master, as_failed, database_status, update_reconciled, update_error,
  set_available, update_from_app_stateful_set, master_storage, check_master, replicas_missing,
  replicas_present, check_replicas, update_database,
}

module _ (E : Error → Type 0) (lib : Library) (c : Client) (steady : Steady E lib c) where
  list-Safe :
      (claim_name app_name namespace : String)
      → Safe E (list_pvcs_by_prefix c claim_name app_name namespace)
  unfolding list_pvcs_by_prefix
  list-Safe claim_name app_name namespace =
      Ensures-bind (c.list namespace) _ (steady.lists namespace) (λ items _. Ensures-pure _ tt)

  condition-Safe :
      (ms : MusicService) (type status reason message : String)
      → Safe E (set_condition_now c ms type status reason message)
  unfolding set_condition_now
  condition-Safe ms type status reason message =
      Ensures-bind c.now _ steady.clock (λ now _. Ensures-pure _ tt)

  available-Safe :
      (ms : MusicService) (ready desired : ℤ) → Safe E (set_available c ms ready desired)
  unfolding set_available
  available-Safe ms ready desired =
      Ensures-if (eqb_ℤ ready (pos 0)) _ _ (λ _. search condition-Safe)
        (λ _.
          Ensures-if (ltb_ℤ ready desired) _ _ (λ _. search condition-Safe)
            (λ _. search condition-Safe))

  -- The updates of the status leave the database of the spec as it is.
  module _ (o : Option DatabaseSpec) where
    abbrev Given : MusicService → Type 0
    Given ms = ms.spec.database ≡ o

    condition-Given :
        (ms : MusicService) (type status reason message : String)
        → Given ms
        → Ensures E Given (set_condition_now c ms type status reason message)
    unfolding set_condition_now
    condition-Given ms type status reason message given =
        Ensures-bind c.now _ steady.clock (λ now _. Ensures-pure _ given)

    warnings-Given :
        (ms : MusicService) (sts : StatefulSet) (claim_name app_name size type : String)
        → Given ms
        → Ensures E Given (update_storage_warnings lib c ms sts claim_name app_name size type)
    unfolding update_storage_warnings storage_healthy
    warnings-Given ms sts claim_name app_name size type given =
        Ensures-if (shrinks lib sts size) _ _ (λ _. condition-Given ms type _ _ _ given)
          (λ _.
            Ensures-handle (list_pvcs_by_prefix c claim_name app_name ms.metadata.namespace) _ _
              (list-Safe claim_name app_name ms.metadata.namespace)
              (λ _ _. condition-Given ms type _ _ _ given)
              (λ pvcs _.
                Ensures-if (any_unbound pvcs) _ _ (λ _. condition-Given ms type _ _ _ given)
                  (λ _. condition-Given ms type _ _ _ given)))

    storage-Given :
        (ms : MusicService) (sts : StatefulSet) (storage : Option StorageSpec)
        → Given ms
        → Ensures E Given (master_storage lib c ms sts storage)
    unfolding master_storage
    storage-Given ms sts none given = Ensures-pure ms given
    storage-Given ms sts (some storage) given = warnings-Given ms sts _ _ _ _ given

  pub update_reconciled-Safe : (ms : MusicService) → Safe E (update_reconciled c ms)
  unfolding update_reconciled
  update_reconciled-Safe ms =
      Ensures-bind
        (set_condition_now c ms "Reconciled" "True" "ReconcileSuccess" "Successfully reconciled") _
        (condition-Safe ms "Reconciled" "True" "ReconcileSuccess" "Successfully reconciled")
        (λ ms' _. Ensures-bind c.now _ steady.clock (λ now _. steady.statuses _))

  pub update_error-Safe :
      (ms : MusicService) (reason message : String) → Safe E (update_error c ms reason message)
  unfolding update_error
  update_error-Safe ms reason message = Ensures-bind c.now _ steady.clock (λ now _.
      Ensures-bind
        (set_condition_now c (as_failed now message ms) "Reconciled" "False" reason message) _
        (condition-Safe (as_failed now message ms) "Reconciled" "False" reason message)
        (λ ms' _. steady.statuses ms'))

  pub update_from_app-Safe :
      (ms : MusicService) (sts : StatefulSet)
      → HasReplicas sts
      → Safe E (update_from_app_stateful_set lib c ms sts)
  unfolding update_from_app_stateful_set deref
  update_from_app-Safe ms sts (n, e) =
      Ensures-bind (lift (deref sts.spec.replicas)) _
        (Ensures-lift {Q = λ _. Unit {0}} (deref sts.spec.replicas) (rw (deref, e) (value tt)))
        (λ desired _.
          Ensures-bind (set_available c ms sts.ready_replicas desired) _
            (available-Safe ms sts.ready_replicas desired)
            (λ ms' _.
              Ensures-bind _ _
                (warnings-Given ms'.spec.database ms' sts "music-data" ms'.metadata.name
                  ms'.spec.storage.size "StorageWarningApp" refl)
                (λ ms'' _. steady.statuses ms'')))

  missing-Safe : (ms : MusicService) (e : Error) → Safe E (replicas_missing lib c ms e)
  unfolding replicas_missing
  missing-Safe ms e =
      Ensures-if e.is_not_found _ _
        (λ _.
          Ensures-if (database_status ms).replica_ever_created _ _ (λ _. search condition-Safe)
            (λ _. Ensures-pure ms tt))
        (λ _. Ensures-pure ms tt)

  present-Safe : (ms : MusicService) (sts : StatefulSet) → Safe E (replicas_present lib c ms sts)
  unfolding replicas_present
  present-Safe ms sts = Ensures-bind c.now _ steady.clock (λ now _. search condition-Safe)

  module _ (db : DatabaseSpec) where
    database-Returns : (o : Option DatabaseSpec) → o ≡ some db → Returns (λ x. x ≡ db) (deref o)
    unfolding deref
    database-Returns o e = rw e (value refl)

    master-Given :
        (ms : MusicService)
        → Given (some db) ms
        → Ensures E (Given (some db)) (check_master lib c ms)
    unfolding check_master
    master-Given ms given =
        Ensures-handle (c.get stateful_set (name_of ms "-db-master")) _ _
          (steady.gets stateful_set (name_of ms "-db-master")) (λ _ _. Ensures-pure ms given)
          (λ sts _.
            let ms' = with_database ms (with_master sts (database_status ms)) in
            Ensures-bind (lift (deref ms.spec.database)) _
              (Ensures-lift (deref ms.spec.database) (database-Returns ms.spec.database given))
              (λ x _. storage-Given (some db) ms' sts x.storage given))

    replicas-Safe : (ms : MusicService) → Given (some db) ms → Safe E (check_replicas lib c ms)
    unfolding check_replicas
    replicas-Safe ms given =
        Ensures-bind (lift (deref ms.spec.database)) _
          (Ensures-lift (deref ms.spec.database) (database-Returns ms.spec.database given))
          (λ x _.
            Ensures-if (ltb_ℤ (pos 0) x.replicas) _ _
              (λ _.
                Ensures-handle (c.get stateful_set (name_of ms "-db-replica")) _ _
                  (steady.gets stateful_set (name_of ms "-db-replica")) (λ e _. missing-Safe ms e)
                  (λ sts _. present-Safe ms sts))
              (λ _. Ensures-pure ms tt))

    pub update_database-Safe :
        (ms : MusicService) → Given (some db) ms → Safe E (update_database lib c ms)
    unfolding update_database
    update_database-Safe ms given =
        let ms' = with_database ms (database_status ms) in
        Ensures-bind (check_master lib c ms') _ (master-Given ms' given) (λ ms₁ given₁.
          Ensures-bind (check_replicas lib c ms₁) _ (replicas-Safe ms₁ given₁)
            (λ ms₂ _. steady.statuses ms₂))

-- ===== src/Reconciler/Total/Objects.antt =====
-- Each reconciler on a steady server.
use kind_music_streaming.Prelude.{◌<>◌, ◌≡◌, Option, none, some, deep_equal, refl}
use kind_music_streaming.Prelude.Int.{pos, eqb_ℤ, ltb_ℤ}
use kind_music_streaming.Kube.{HorizontalPodAutoscaler, autoscaler_spec_discrete}
use kind_music_streaming.Api.{AutoscalingSpec, DatabaseSpec, MusicService}
use kind_music_streaming.Exec.{Error, deref}
use kind_music_streaming.Exec.Ensures.{
  Returns, value, Safe, Ensures-pure, Ensures-raise, Ensures-lift, Ensures-if, Ensures-bind,
  Ensures-handle,
}
use kind_music_streaming.Platform.{service, autoscaler, Library, Client}
use kind_music_streaming.Builder.{
  IsBuildable, name_of, build_autoscaler, build_database_replica_autoscaler,
}
use kind_music_streaming.Builder.Total.{
  build_app_stateful_set-Returns, build_database_master_stateful_set-Returns,
  build_database_replica_stateful_set-Returns, build_database_galera_stateful_set-Returns,
}
use kind_music_streaming.Reconciler.App
use kind_music_streaming.Reconciler.Database
use kind_music_streaming.Reconciler.Database.{database_storage_spec}
use kind_music_streaming.Reconciler.Secret.{replication_enabled, ensure_replication_secret}
use kind_music_streaming.Reconciler.Total.Sets.{
  other_error, Steady, create_missing-Safe, ensure-Safe, reconcile_set-Safe,
}
use kind_music_streaming.Reconciler.Total.Secrets.{secret_for-Safe}

module _ (E : Error → Type 0) (lib : Library) (c : Client) (steady : Steady E lib c) where
  pub reconcile_service-Safe : (ms : MusicService) → Safe E (App.reconcile_service lib c ms)
  unfolding App.reconcile_service
  reconcile_service-Safe ms = ensure-Safe E lib c steady service _ _ (value tt)

  pub reconcile_stateful_set-Safe :
      (ms : MusicService) → IsBuildable lib ms.spec → Safe E (App.reconcile_stateful_set lib c ms)
  unfolding App.reconcile_stateful_set
  reconcile_stateful_set-Safe ms b =
      reconcile_set-Safe E lib c steady _ _ ms.spec.storage "music-data" ms.metadata.name
        (build_app_stateful_set-Returns lib ms b)

  update_autoscaler-Safe :
      (hpa desired : HorizontalPodAutoscaler) → Safe E (App.update_autoscaler lib c hpa desired)
  unfolding App.update_autoscaler
  update_autoscaler-Safe hpa desired =
      Ensures-if _ _ _
        (λ _.
          Ensures-bind (c.update autoscaler (record hpa { spec = desired.spec })) _
            (steady.updates autoscaler _) (λ _ _. Ensures-pure tt tt))
        (λ _. Ensures-pure tt tt)

  delete_autoscaler-Safe : (ms : MusicService) → Safe E (App.delete_autoscaler_if_exists lib c ms)
  unfolding App.delete_autoscaler_if_exists
  delete_autoscaler-Safe ms =
      Ensures-handle (c.get autoscaler (name_of ms "-autoscaler")) _ _ (steady.gets autoscaler _)
        (λ e unread.
          Ensures-if e.is_not_found _ _ (λ _. Ensures-pure tt tt)
            (λ other. Ensures-raise e (other_error E lib c steady e unread other)))
        (λ hpa _. steady.deletes autoscaler hpa)

  -- An autoscaler is only built where the spec has one.
  build_autoscaler-Returns :
      (ms : MusicService) (a : AutoscalingSpec)
      → ms.spec.autoscaling ≡ some a
      → Returns (λ _. Unit {0}) (build_autoscaler lib ms)
  unfolding build_autoscaler
  build_autoscaler-Returns ms a e = rw e (value tt)

  autoscale-Safe :
      (ms : MusicService) (o : Option AutoscalingSpec)
      → ms.spec.autoscaling ≡ o
      → Safe E (App.autoscale lib c ms o)
  unfolding App.autoscale
  autoscale-Safe ms none e = delete_autoscaler-Safe ms
  autoscale-Safe ms (some a) e =
      let built = build_autoscaler-Returns ms a e in
      Ensures-handle (c.get autoscaler (name_of ms "-autoscaler")) _ _ (steady.gets autoscaler _)
        (λ x unread.
          create_missing-Safe E lib c steady (λ _ _. Unit {0}) autoscaler _ x built unread)
        (λ hpa _.
          Ensures-bind _ _ (Ensures-lift (build_autoscaler lib ms) built)
            (λ desired _. update_autoscaler-Safe hpa desired))

  pub reconcile_autoscaler-Safe : (ms : MusicService) → Safe E (App.reconcile_autoscaler lib c ms)
  unfolding App.reconcile_autoscaler
  reconcile_autoscaler-Safe ms = autoscale-Safe ms ms.spec.autoscaling refl

  pub reconcile_galera-Safe :
      (ms : MusicService) → IsBuildable lib ms.spec → Safe E (Database.reconcile_galera lib c ms)
  unfolding Database.reconcile_galera
  reconcile_galera-Safe ms b =
      reconcile_set-Safe E lib c steady _ _ (database_storage_spec ms) "db-data"
        (ms.metadata.name <> "-db-galera") (build_database_galera_stateful_set-Returns lib ms b)

  pub reconcile_galera_services-Safe :
      (ms : MusicService) → Safe E (Database.reconcile_galera_services lib c ms)
  unfolding Database.reconcile_galera_services
  reconcile_galera_services-Safe ms =
      Ensures-bind _ _ (ensure-Safe E lib c steady service _ _ (value tt)) (λ _ _.
        Ensures-bind _ _ (ensure-Safe E lib c steady service _ _ (value tt))
          (λ _ _. ensure-Safe E lib c steady service _ _ (value tt)))

  pub reconcile_master-Safe :
      (ms : MusicService) → IsBuildable lib ms.spec → Safe E (Database.reconcile_master lib c ms)
  unfolding Database.reconcile_master
  reconcile_master-Safe ms b =
      reconcile_set-Safe E lib c steady _ _ (database_storage_spec ms) "db-data"
        (ms.metadata.name <> "-db-master") (build_database_master_stateful_set-Returns lib ms b)

  module _ (ms : MusicService) (db : DatabaseSpec) (given : ms.spec.database ≡ some db) where
    -- `ms.Spec.Database` is not nil.
    pub deref_database-Returns : Returns (λ x. x ≡ db) (deref ms.spec.database)
    unfolding deref
    deref_database-Returns = rw given (value refl)

    ensure_secret-Safe : Safe E (ensure_replication_secret lib c ms)
    unfolding ensure_replication_secret
    ensure_secret-Safe =
        Ensures-if (replication_enabled ms) _ _
          (λ _.
            Ensures-bind _ _ (Ensures-lift (deref ms.spec.database) deref_database-Returns)
              (λ x _. secret_for-Safe E lib c steady ms x))
          (λ _. Ensures-pure _ tt)

    pub reconcile_replicas-Safe :
        IsBuildable lib ms.spec → Safe E (Database.reconcile_replicas lib c ms)
    unfolding Database.reconcile_replicas
    reconcile_replicas-Safe b =
        Ensures-bind _ _ (Ensures-lift (deref ms.spec.database) deref_database-Returns) (λ x _.
          Ensures-if (eqb_ℤ x.replicas (pos 0)) _ _ (λ _. Ensures-pure tt tt)
            (λ _. Ensures-bind (ensure_replication_secret lib c ms) _ ensure_secret-Safe (λ _ _.
              reconcile_set-Safe E lib c steady _ _ (database_storage_spec ms) "db-data"
                (ms.metadata.name <> "-db-replica")
                (build_database_replica_stateful_set-Returns lib ms b))))

    read_service-Safe : Safe E (Database.reconcile_read_service lib c ms)
    unfolding Database.reconcile_read_service
    read_service-Safe =
        Ensures-handle (c.get service (name_of ms "-db-read")) _ _ (steady.gets service _)
          (λ e _.
            Ensures-if e.is_not_found _ _ (λ _. steady.creates service _) (λ _. Ensures-pure tt tt))
          (λ _ _. Ensures-pure tt tt)

    pub reconcile_services-Safe : Safe E (Database.reconcile_services lib c ms)
    unfolding Database.reconcile_services
    reconcile_services-Safe =
        Ensures-bind _ _ (ensure-Safe E lib c steady service _ _ (value tt)) (λ _ _.
          Ensures-bind _ _ (Ensures-lift (deref ms.spec.database) deref_database-Returns) (λ x _.
            Ensures-if (ltb_ℤ (pos 0) x.replicas) _ _ (λ _. read_service-Safe)
              (λ _. Ensures-pure tt tt)))

    replica_autoscaler-Safe :
        (o : Option AutoscalingSpec)
        → db.autoscaling ≡ o
        → Safe E (Database.replica_autoscaler lib c ms db o)
    unfolding Database.replica_autoscaler Database.update_replica_autoscaler
        build_database_replica_autoscaler
    replica_autoscaler-Safe none e = Ensures-pure tt tt
    replica_autoscaler-Safe (some a) e =
        Ensures-if (eqb_ℤ db.replicas (pos 0)) _ _ (λ _. Ensures-pure tt tt)
          (λ _.
            Ensures-handle (c.get autoscaler (name_of ms "-db-replica-autoscaler")) _ _
              (steady.gets autoscaler _)
              (λ x unread.
                create_missing-Safe E lib c steady (λ _ _. Unit {0}) autoscaler _ x built unread)
              (λ hpa _.
                Ensures-bind _ _ (Ensures-lift (build_database_replica_autoscaler lib ms) built)
                  (λ desired _.
                    Ensures-if (deep_equal autoscaler_spec_discrete hpa.spec desired.spec) _ _
                      (λ _. Ensures-pure tt tt)
                      (λ _.
                        Ensures-bind (c.update autoscaler (record hpa { spec = desired.spec })) _
                          (steady.updates autoscaler _) (λ _ _. Ensures-pure tt tt)))))
      where
        built : Returns (λ _. Unit {0}) (build_database_replica_autoscaler lib ms)
        built = rw (given, e) (value tt)

    pub reconcile_db_autoscaler-Safe : Safe E (Database.reconcile_autoscaler lib c ms)
    unfolding Database.reconcile_autoscaler
    reconcile_db_autoscaler-Safe =
        Ensures-bind _ _ (Ensures-lift (deref ms.spec.database) deref_database-Returns)
          (λ x same. rw same (replica_autoscaler-Safe db.autoscaling refl))

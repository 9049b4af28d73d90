-- ===== src/Reconciler/Authority/Objects.antt =====
-- Each reconciler makes permitted calls only.
use kind_music_streaming.Prelude.{
  ℕ, String, ◌<>◌, ◌≡◌, refl, List, Map, inl, inr, Option, none, some,
}
use kind_music_streaming.Prelude.Int.{ltb_ℤ, eqb_ℤ, pos}
use kind_music_streaming.Kube.{
  StatefulSet, NamespacedName, Service, HorizontalPodAutoscaler, Secret,
}
use kind_music_streaming.Api.{AutoscalingSpec, DatabaseSpec, MusicService}
use kind_music_streaming.Exec.{Error, Outcome, ok, lift, deref}
use kind_music_streaming.Exec.Keeps.{
  Keeps, keeps_rules, Keeps-pure, Keeps-lift, Keeps-if, Keeps-bind, Keeps-handle,
}
use kind_music_streaming.Platform.{service, autoscaler, secret, Library, Client}
use kind_music_streaming.Builder.{name_of, build_autoscaler, build_database_replica_autoscaler}
use kind_music_streaming.Builder.Ownership.{
  build_app_service-IsOwned, build_app_stateful_set-IsOwned, build_autoscaler-IsOwned,
  build_database_galera_stateful_set-IsOwned, build_database_master_stateful_set-IsOwned,
  build_database_replica_stateful_set-IsOwned, build_database_galera_service-IsOwned,
  build_database_galera_primary_service-IsOwned, build_database_galera_read_service-IsOwned,
  build_database_master_service-IsOwned, build_database_read_service-IsOwned,
  build_database_replica_autoscaler-IsOwned, IsOwned, ok-IsOwned,
}
use kind_music_streaming.Reconciler.App
use kind_music_streaming.Reconciler.Ensure.{ensure, reconcile_set}
use kind_music_streaming.Reconciler.Secret.{
  complete_secret, create_secret, secret_for, ensure_replication_secret, replication_secret,
  complete_data, generate_password,
}
use kind_music_streaming.Reconciler.Database
use kind_music_streaming.Reconciler.Authority.Sets.{
  Grants, create_missing-Keeps, ensure-Keeps, reconcile_set-Keeps,
}

module _ (lib : Library) (c : Client) (ms : MusicService) (P : c.World → Type 0)
    (g : Grants lib c ms P) where
  pub ensure_service-Keeps :
      (key : NamespacedName) (built : Service)
      → IsOwned lib ms built.metadata
      → Keeps P (ensure c service key (ok built))
  ensure_service-Keeps key built owned =
      ensure-Keeps lib c ms P g service key (ok built) (ok-IsOwned lib ms built owned)

  pub reconcile_service-Keeps : Keeps P (App.reconcile_service lib c ms)
  unfolding App.reconcile_service
  reconcile_service-Keeps = ensure_service-Keeps _ _ (build_app_service-IsOwned lib ms)

  pub reconcile_stateful_set-Keeps : Keeps P (App.reconcile_stateful_set lib c ms)
  unfolding App.reconcile_stateful_set
  reconcile_stateful_set-Keeps =
      reconcile_set-Keeps lib c ms P g _ _ ms.spec.storage "music-data" ms.metadata.name
        (build_app_stateful_set-IsOwned lib ms) inl

  -- A StatefulSet of the database.
  pub database_set-Keeps :
      (suffix : String) (build : Outcome StatefulSet)
      → ((sts : StatefulSet) → build ≡ ok sts → IsOwned lib ms sts.metadata)
      → Keeps P (
          reconcile_set c
            (name_of ms suffix)
            build
            (Database.database_storage_spec ms)
            "db-data"
            (ms.metadata.name <> suffix))
  database_set-Keeps suffix build owned =
      reconcile_set-Keeps lib c ms P g (name_of ms suffix) build (Database.database_storage_spec ms)
        "db-data" (ms.metadata.name <> suffix) owned inr

  pub update_autoscaler-Keeps :
      (hpa desired : HorizontalPodAutoscaler) → Keeps P (App.update_autoscaler lib c hpa desired)
  unfolding App.update_autoscaler
  update_autoscaler-Keeps hpa desired = search (keeps_rules, g.updates_autoscaler)

  autoscale-Keeps :
      (a : Option AutoscalingSpec) → ms.spec.autoscaling ≡ a → Keeps P (App.autoscale lib c ms a)
  unfolding App.autoscale
  autoscale-Keeps none e =
      Keeps-handle _ _ _ (g.gets autoscaler _) (λ x. search keeps_rules) (g.deletes_autoscaler e)
  autoscale-Keeps (some a) e =
      Keeps-handle _ _ _ (g.gets autoscaler _)
        (λ x. create_missing-Keeps lib c ms P g autoscaler _ x (build_autoscaler-IsOwned lib ms))
        (λ hpa.
          Keeps-bind (lift (build_autoscaler lib ms)) _ (Keeps-lift _)
            (λ desired. update_autoscaler-Keeps hpa desired))

  pub reconcile_autoscaler-Keeps : Keeps P (App.reconcile_autoscaler lib c ms)
  unfolding App.reconcile_autoscaler
  reconcile_autoscaler-Keeps = autoscale-Keeps ms.spec.autoscaling refl

  pub reconcile_galera-Keeps : Keeps P (Database.reconcile_galera lib c ms)
  unfolding Database.reconcile_galera
  reconcile_galera-Keeps =
      database_set-Keeps "-db-galera" _ (build_database_galera_stateful_set-IsOwned lib ms)

  pub reconcile_galera_services-Keeps : Keeps P (Database.reconcile_galera_services lib c ms)
  unfolding Database.reconcile_galera_services
  reconcile_galera_services-Keeps =
      Keeps-bind _ _ (ensure_service-Keeps _ _ (build_database_galera_service-IsOwned lib ms)) (λ _.
        Keeps-bind _ _
          (ensure_service-Keeps _ _ (build_database_galera_primary_service-IsOwned lib ms))
          (λ _. ensure_service-Keeps _ _ (build_database_galera_read_service-IsOwned lib ms)))

  pub reconcile_master-Keeps : Keeps P (Database.reconcile_master lib c ms)
  unfolding Database.reconcile_master
  reconcile_master-Keeps =
      database_set-Keeps "-db-master" _ (build_database_master_stateful_set-IsOwned lib ms)

  generate_password-Keeps : (n : ℕ) → Keeps P (generate_password c n)
  unfolding generate_password
  generate_password-Keeps n = search (keeps_rules, g.random)

  complete_data-Keeps : (contents : Map (List ℕ)) → Keeps P (complete_data c contents)
  unfolding complete_data
  complete_data-Keeps contents = search (keeps_rules, generate_password-Keeps)

  pub complete_secret-Keeps : (s : Secret) → Keeps P (complete_secret c s)
  unfolding complete_secret
  complete_secret-Keeps s = search (keeps_rules, complete_data-Keeps, g.updates_secret)

  creates_secret :
      (password : List ℕ) → Keeps P (c.create secret (replication_secret lib c ms password))
  unfolding replication_secret
  creates_secret password =
      g.creates secret (replication_secret lib c ms password)
        (record { suffix = "-db-replication"; name = refl; namespace = refl; owner = refl })

  create_secret-Keeps : (e : Error) → Keeps P (create_secret lib c ms e)
  unfolding create_secret
  create_secret-Keeps e = search (keeps_rules, generate_password-Keeps, creates_secret)

  secret_for-Keeps : (db : DatabaseSpec) → Keeps P (secret_for lib c ms db)
  unfolding secret_for
  secret_for-Keeps db =
      Keeps-if (eqb_ℤ db.replicas (pos 0)) _ _ (λ _. Keeps-pure none)
        (λ _. Keeps-handle _ _ _ (g.gets secret _) create_secret-Keeps complete_secret-Keeps)

  pub ensure_secret-Keeps : Keeps P (ensure_replication_secret lib c ms)
  unfolding ensure_replication_secret
  ensure_secret-Keeps = search (keeps_rules, secret_for-Keeps)

  pub reconcile_replicas-Keeps : Keeps P (Database.reconcile_replicas lib c ms)
  unfolding Database.reconcile_replicas
  reconcile_replicas-Keeps = Keeps-bind (lift (deref ms.spec.database)) _ (Keeps-lift _) (λ db.
      Keeps-if (eqb_ℤ db.replicas (pos 0)) _ _ (λ _. Keeps-pure tt)
        (λ _. Keeps-bind (ensure_replication_secret lib c ms) _ ensure_secret-Keeps (λ _.
          database_set-Keeps "-db-replica" _ (build_database_replica_stateful_set-IsOwned lib ms))))

  pub read_service-Keeps : Keeps P (Database.reconcile_read_service lib c ms)
  unfolding Database.reconcile_read_service
  read_service-Keeps =
      Keeps-handle _ _ _ (g.gets service _)
        (λ e.
          Keeps-if e.is_not_found _ _
            (λ _. g.creates service _ (build_database_read_service-IsOwned lib ms))
            (λ _. Keeps-pure tt))
        (λ _. Keeps-pure tt)

  pub reconcile_services-Keeps : Keeps P (Database.reconcile_services lib c ms)
  unfolding Database.reconcile_services
  reconcile_services-Keeps =
      Keeps-bind _ _ (ensure_service-Keeps _ _ (build_database_master_service-IsOwned lib ms)) (λ _.
        Keeps-bind (lift (deref ms.spec.database)) _ (Keeps-lift _) (λ db.
          Keeps-if (ltb_ℤ (pos 0) db.replicas) _ _ (λ _. read_service-Keeps) (λ _. Keeps-pure tt)))

  pub update_replica_autoscaler-Keeps :
      (hpa desired : HorizontalPodAutoscaler)
      → Keeps P (Database.update_replica_autoscaler lib c hpa desired)
  unfolding Database.update_replica_autoscaler
  update_replica_autoscaler-Keeps hpa desired = search (keeps_rules, g.updates_autoscaler)

  replica_autoscaler-Keeps :
      (db : DatabaseSpec) (a : Option AutoscalingSpec)
      → Keeps P (Database.replica_autoscaler lib c ms db a)
  unfolding Database.replica_autoscaler
  replica_autoscaler-Keeps db none = Keeps-pure tt
  replica_autoscaler-Keeps db (some a) =
      Keeps-if (eqb_ℤ db.replicas (pos 0)) _ _ (λ _. Keeps-pure tt)
        (λ _.
          Keeps-handle _ _ _ (g.gets autoscaler _)
            (λ x.
              create_missing-Keeps lib c ms P g autoscaler _ x
                (build_database_replica_autoscaler-IsOwned lib ms))
            (λ hpa.
              Keeps-bind (lift (build_database_replica_autoscaler lib ms)) _ (Keeps-lift _)
                (λ desired. update_replica_autoscaler-Keeps hpa desired)))

  pub reconcile_db_autoscaler-Keeps : Keeps P (Database.reconcile_autoscaler lib c ms)
  unfolding Database.reconcile_autoscaler
  reconcile_db_autoscaler-Keeps =
      Keeps-bind (lift (deref ms.spec.database)) _ (Keeps-lift _)
        (λ db. replica_autoscaler-Keeps db db.autoscaling)

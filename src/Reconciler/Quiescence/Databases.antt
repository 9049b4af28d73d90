-- ===== src/Reconciler/Quiescence/Databases.antt =====
-- The reconcilers of the database where the server already holds what they would bring about.
use kind_music_streaming.Prelude.{
  ◌<>◌, ◌≡◌, ◌≢◌, refl, ap, false, not, Bool-cases, inl, inr, Option, none, some, lookup,
}
use kind_music_streaming.Prelude.Int.{pos, eqb_ℤ, ltb_ℤ}
use kind_music_streaming.Kube.{Secret}
use kind_music_streaming.Api.{DatabaseSpec, MusicService}
use kind_music_streaming.Exec.{ok, deref}
use kind_music_streaming.Platform.{service, secret, Library, Client}
use kind_music_streaming.Platform.Lawful.{Lawful}
use kind_music_streaming.Builder.{
  name_of, build_database_galera_stateful_set, build_database_master_stateful_set,
  build_database_replica_stateful_set, build_database_galera_service,
  build_database_galera_primary_service, build_database_galera_read_service,
  build_database_master_service,
}
use kind_music_streaming.Reconciler.Secret.{
  is_absent, replication_enabled, complete_data, complete_secret, secret_for,
  ensure_replication_secret,
}
use kind_music_streaming.Reconciler.Database
use kind_music_streaming.Reconciler.Database.{database_storage_spec}
use kind_music_streaming.Reconciler.Quiet.{
  View, Answers, Quiet, Quiet-pure, Quiet-lift, Quiet-bind, Quiet-found,
}
use kind_music_streaming.Reconciler.Quiescence.{
  IsThere, When, Applies, SetAsDesired, SecretAsDesired, ensure-Quiet, reconcile_set-Quiet,
}

module _ (lib : Library) (V : View) (ms : MusicService) where
  -- The StatefulSet and the services of a Galera cluster.
  pub record GaleraAsDesired : Type 0 where
    pub set : SetAsDesired V (name_of ms "-db-galera") (build_database_galera_stateful_set lib ms)
    pub cluster_service : IsThere V service (name_of ms "-db-galera")
    pub primary_service : IsThere V service (name_of ms "-db-master")
    pub read_service : IsThere V service (name_of ms "-db-read")

  -- The StatefulSets, the services and the secret of a master with replicas.
  pub record ReplicationAsDesired (db : DatabaseSpec) : Type 0 where
    pub master :
        SetAsDesired V (name_of ms "-db-master") (build_database_master_stateful_set lib ms)
    pub master_service : IsThere V service (name_of ms "-db-master")
    pub replica :
        When
          (not (eqb_ℤ db.replicas (pos 0)))
          (SetAsDesired V (name_of ms "-db-replica") (build_database_replica_stateful_set lib ms))
    pub replication_secret :
        When
          (not (eqb_ℤ db.replicas (pos 0)))
          (When (replication_enabled ms) (SecretAsDesired V (name_of ms "-db-replication")))
    pub read_service : When (ltb_ℤ (pos 0) db.replicas) (IsThere V service (name_of ms "-db-read"))

present : {A : Type 0} (o : Option A) → o ≢ none → is_absent o ≡ false
unfolding is_absent
present none gone = absurd (gone refl)
present (some a) gone = refl

module _ (lib : Library) (c : Client) (law : Lawful c) (answers : Answers c law) {V : View} where
  complete_data-Quiet :
      (s : Secret)
      → lookup "username" s.contents ≢ none
      → lookup "password" s.contents ≢ none
      → Quiet c law V (complete_data c s.contents) s.contents
  unfolding complete_data
  complete_data-Quiet s user password =
      rw
        (
          present (lookup "username" s.contents) user,
          present (lookup "password" s.contents) password,
        )
        (Quiet-pure c law s.contents)

  complete_secret-Quiet :
      (s : Secret)
      → lookup "username" s.contents ≢ none
      → lookup "password" s.contents ≢ none
      → Quiet c law V (complete_secret c s) (some s)
  unfolding complete_secret
  complete_secret-Quiet s user password =
      Quiet-bind c law _ s.contents (complete_data-Quiet s user password) (
        rw
          (
            present (lookup "username" s.contents) user,
            present (lookup "password" s.contents) password,
          )
          (Quiet-pure c law (some s)))

  secret_for-Quiet :
      (ms : MusicService) (db : DatabaseSpec)
      → eqb_ℤ db.replicas (pos 0) ≡ false
      → (d : SecretAsDesired V (name_of ms "-db-replication"))
      → Quiet c law V (secret_for lib c ms db) (some d.secret_there)
  unfolding secret_for
  secret_for-Quiet ms db more d = rw more (
      Quiet-found c law answers secret (name_of ms "-db-replication") _ _ d.secret_there d.there
        (complete_secret-Quiet d.secret_there d.has_username d.has_password))

  ensure_replication_secret-Quiet :
      (ms : MusicService) (db : DatabaseSpec)
      → ms.spec.database ≡ some db
      → eqb_ℤ db.replicas (pos 0) ≡ false
      → When (replication_enabled ms) (SecretAsDesired V (name_of ms "-db-replication"))
      → (s : Option Secret) × Quiet c law V (ensure_replication_secret lib c ms) s
  unfolding ensure_replication_secret
  ensure_replication_secret-Quiet ms db given more d = elim (Bool-cases (replication_enabled ms)) [
    | inr off ↦ (none, rw off (Quiet-pure c law none))
    | inl on ↦
        let d' = Applies (replication_enabled ms) on d in
        (
          some d'.secret_there,
          rw on (
              Quiet-bind c law _ db (Quiet-lift c law _ db (ap deref given))
                (secret_for-Quiet ms db more d')),
        )
  ]

  module _ (ms : MusicService) (db : DatabaseSpec) (given : ms.spec.database ≡ some db)
      (d : ReplicationAsDesired lib V ms db) where
    pub reconcile_master-Quiet : Quiet c law V (Database.reconcile_master lib c ms) tt
    unfolding Database.reconcile_master
    reconcile_master-Quiet =
        reconcile_set-Quiet c law answers (name_of ms "-db-master")
          (build_database_master_stateful_set lib ms) (database_storage_spec ms) "db-data"
          (ms.metadata.name <> "-db-master") d.master

    pub reconcile_replicas-Quiet : Quiet c law V (Database.reconcile_replicas lib c ms) tt
    unfolding Database.reconcile_replicas
    reconcile_replicas-Quiet =
        Quiet-bind c law _ db (Quiet-lift c law _ db (ap deref given))
          (elim (Bool-cases (eqb_ℤ db.replicas (pos 0))) [
            | inl zero ↦ rw zero (Quiet-pure c law tt)
            | inr more ↦
                let (s, kept) =
                  ensure_replication_secret-Quiet ms db given more (
                    Applies (not (eqb_ℤ db.replicas (pos 0))) (ap not more) d.replication_secret) in
                rw more (
                  Quiet-bind c law _ s kept (
                    reconcile_set-Quiet c law answers (name_of ms "-db-replica")
                      (build_database_replica_stateful_set lib ms) (database_storage_spec ms)
                      "db-data" (ms.metadata.name <> "-db-replica")
                      (Applies (not (eqb_ℤ db.replicas (pos 0))) (ap not more) d.replica)))
          ])

    pub reconcile_services-Quiet : Quiet c law V (Database.reconcile_services lib c ms) tt
    unfolding Database.reconcile_services Database.reconcile_read_service
    reconcile_services-Quiet =
        Quiet-bind c law _ tt
          (ensure-Quiet c law answers service (name_of ms "-db-master")
            (ok (build_database_master_service lib ms)) d.master_service)
          (Quiet-bind c law _ db (Quiet-lift c law _ db (ap deref given))
            (elim (Bool-cases (ltb_ℤ (pos 0) db.replicas)) [
              | inr none_wanted ↦ rw none_wanted (Quiet-pure c law tt)
              | inl wanted ↦
                  let (o, there) = Applies (ltb_ℤ (pos 0) db.replicas) wanted d.read_service in
                  rw wanted (
                    Quiet-found c law answers service (name_of ms "-db-read") _ _ o there
                      (Quiet-pure c law tt))
            ]))

  module _ (ms : MusicService) (d : GaleraAsDesired lib V ms) where
    pub reconcile_galera-Quiet : Quiet c law V (Database.reconcile_galera lib c ms) tt
    unfolding Database.reconcile_galera
    reconcile_galera-Quiet =
        reconcile_set-Quiet c law answers (name_of ms "-db-galera")
          (build_database_galera_stateful_set lib ms) (database_storage_spec ms) "db-data"
          (ms.metadata.name <> "-db-galera") d.set

    pub reconcile_galera_services-Quiet :
        Quiet c law V (Database.reconcile_galera_services lib c ms) tt
    unfolding Database.reconcile_galera_services
    reconcile_galera_services-Quiet =
        Quiet-bind c law _ tt
          (ensure-Quiet c law answers service (name_of ms "-db-galera")
            (ok (build_database_galera_service lib ms)) d.cluster_service)
          (Quiet-bind c law _ tt
            (ensure-Quiet c law answers service (name_of ms "-db-master")
              (ok (build_database_galera_primary_service lib ms)) d.primary_service)
            (ensure-Quiet c law answers service (name_of ms "-db-read")
              (ok (build_database_galera_read_service lib ms)) d.read_service))

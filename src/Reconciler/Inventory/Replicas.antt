-- ===== src/Reconciler/Inventory/Replicas.antt =====
-- The objects of a replicated database that the reconcilers see to.
use kind_music_streaming.Prelude.{◌<>◌, ◌≡◌, ◌≢◌, refl, true, false, inr, Option, none, some, arith}
use kind_music_streaming.Prelude.Int.{pos, eqb_ℤ}
use kind_music_streaming.Kube.{NamespacedName, HorizontalPodAutoscaler}
use kind_music_streaming.Api.{AutoscalingSpec, DatabaseSpec, MusicService}
use kind_music_streaming.Exec.{Error, ok, lift, deref}
use kind_music_streaming.Exec.Keeps.{Keeps, Keeps-pure, keeps_rules, Keeps-lift, Keeps-bind}
use kind_music_streaming.Exec.Yields.{
  Yields, Yields-raise, Yields-if, Yields-keep, Yields-after, Yields-lift, Yields-handle,
}
use kind_music_streaming.Platform.{Kind, stateful_set, autoscaler, secret, Library, Client}
use kind_music_streaming.Platform.Lawful.{Lawful}
use kind_music_streaming.Builder.{name_of, build_database_replica_autoscaler}
use kind_music_streaming.Builder.Ownership.{build_database_replica_stateful_set-IsOwned}
use kind_music_streaming.Builder.Keys.{
  build_database_replica_stateful_set-HasKey, build_database_replica_autoscaler-HasKey,
}
use kind_music_streaming.Reconciler.Database
use kind_music_streaming.Reconciler.Secret.{
  replication_enabled, create_secret, secret_for, ensure_replication_secret, generate_password,
  replication_secret,
}
use kind_music_streaming.Reconciler.Authority.{Recreates, complete_secret-Keeps, database_set-Keeps}
use kind_music_streaming.Reconciler.Presence.{
  update-Keeps, Present, Present-Grants, create-Present, get-Present, create_missing-Present,
  reconcile_set-Present,
}

module _ (lib : Library) (c : Client) (law : Lawful c) (ms : MusicService)
    (kept : Recreates ms → ⊥) where
  -- The object of a kind under a key is there.
  abbrev There : Kind → NamespacedName → c.World → Type 0
  There k key = Present c law k key

  -- The parts of the database that depend on the number of its replicas.
  module _ (db : DatabaseSpec) (given : ms.spec.database ≡ some db)
      (some_replicas : eqb_ℤ db.replicas (pos 0) ≡ false) where
    database_is : (x : DatabaseSpec) → deref ms.spec.database ≡ ok x → x ≡ db
    unfolding deref
    database_is x e = let same : ok db ≡ ok x = rw given at e in ground arith

    reads_replicas :
        (x : DatabaseSpec) → deref ms.spec.database ≡ ok x → eqb_ℤ x.replicas (pos 0) ≡ false
    reads_replicas x e = rw (database_is x e) some_replicas

    create_secret-Present :
        (e : Error)
        → Yields (There secret (name_of ms "-db-replication")) (create_secret lib c ms e)
    unfolding create_secret replication_secret
    create_secret-Present e =
        Yields-if e.is_not_found _ _
          (λ _. Yields-after (generate_password c 16) _ (λ password.
            Yields-keep _ _
              (create-Present c law secret (name_of ms "-db-replication")
                (replication_secret lib c ms password) refl)
              (λ _. Keeps-pure _)))
          (λ _. Yields-raise e)

    secret_for-Present :
        (x : DatabaseSpec)
        → eqb_ℤ x.replicas (pos 0) ≡ false
        → Yields (There secret (name_of ms "-db-replication")) (secret_for lib c ms x)
    unfolding secret_for
    secret_for-Present x wanted =
        let key = name_of ms "-db-replication" in
        let g = Present-Grants c law secret key lib ms kept (λ e. absurd (ground arith)) in
        Yields-if (eqb_ℤ x.replicas (pos 0)) _ _ (λ no. absurd (ground arith))
          (λ _.
            Yields-handle (c.get secret key) _ _ (get-Present c law secret key)
              create_secret-Present (complete_secret-Keeps lib c ms _ g))

    pub secret-Present :
        replication_enabled ms ≡ true
        → Yields
            (There secret (name_of ms "-db-replication"))
            (Database.reconcile_replicas lib c ms)
    unfolding Database.reconcile_replicas ensure_replication_secret
    secret-Present enabled =
        let key = name_of ms "-db-replication" in
        let g = Present-Grants c law secret key lib ms kept (λ e. absurd (ground arith)) in
        Yields-lift (deref ms.spec.database) _ (λ x read.
          Yields-if (eqb_ℤ x.replicas (pos 0)) _ _
            (λ no. let wanted = reads_replicas x read in absurd (ground arith))
            (λ _.
              Yields-keep (ensure_replication_secret lib c ms) _
                (Yields-if (replication_enabled ms) _ _
                  (λ _.
                    Yields-lift (deref ms.spec.database) _
                      (λ y read'. secret_for-Present y (reads_replicas y read')))
                  (λ off. absurd (ground arith)))
                (λ _.
                  database_set-Keeps lib c ms _ g "-db-replica" _
                    (build_database_replica_stateful_set-IsOwned lib ms))))

    pub reconcile_replicas-Present :
        Yields
          (There stateful_set (name_of ms "-db-replica"))
          (Database.reconcile_replicas lib c ms)
    unfolding Database.reconcile_replicas
    reconcile_replicas-Present = Yields-lift (deref ms.spec.database) _ (λ x read.
        Yields-if (eqb_ℤ x.replicas (pos 0)) _ _
          (λ no. let wanted = reads_replicas x read in absurd (ground arith))
          (λ _. Yields-after (ensure_replication_secret lib c ms) _ (λ _.
            reconcile_set-Present c law (name_of ms "-db-replica") lib ms kept _
              (Database.database_storage_spec ms) "db-data" (ms.metadata.name <> "-db-replica")
              (build_database_replica_stateful_set-HasKey lib ms) inr)))

    update-There :
        (key : NamespacedName) (hpa : HorizontalPodAutoscaler)
        → Keeps (There autoscaler key) (c.update autoscaler hpa)
    update-There key hpa = update-Keeps c law autoscaler key autoscaler hpa (λ e. ground arith)

    update_replica-Keeps :
        (key : NamespacedName) (hpa desired : HorizontalPodAutoscaler)
        → Keeps (There autoscaler key) (Database.update_replica_autoscaler lib c hpa desired)
    unfolding Database.update_replica_autoscaler
    update_replica-Keeps key hpa desired = search (keeps_rules, update-There key)

    replica_autoscaler-Present :
        (o : Option AutoscalingSpec)
        → o ≢ none
        → Yields
            (There autoscaler (name_of ms "-db-replica-autoscaler"))
            (Database.replica_autoscaler lib c ms db o)
    unfolding Database.replica_autoscaler
    replica_autoscaler-Present none other = absurd (other refl)
    replica_autoscaler-Present (some a) other =
        let key = name_of ms "-db-replica-autoscaler" in
        Yields-if (eqb_ℤ db.replicas (pos 0)) _ _ (λ no. absurd (ground arith))
          (λ _.
            Yields-handle (c.get autoscaler key) _ _ (get-Present c law autoscaler key)
              (λ e.
                create_missing-Present c law autoscaler key
                  (build_database_replica_autoscaler lib ms) e
                  (build_database_replica_autoscaler-HasKey lib ms))
              (λ hpa.
                Keeps-bind (lift (build_database_replica_autoscaler lib ms)) _ (Keeps-lift _)
                  (update_replica-Keeps key hpa)))

    pub reconcile_db_autoscaler-Present :
        db.autoscaling ≢ none
        → Yields
            (There autoscaler (name_of ms "-db-replica-autoscaler"))
            (Database.reconcile_autoscaler lib c ms)
    unfolding Database.reconcile_autoscaler
    reconcile_db_autoscaler-Present scaled =
        Yields-lift (deref ms.spec.database) _
          (λ x read. rw (database_is x read) (replica_autoscaler-Present db.autoscaling scaled))

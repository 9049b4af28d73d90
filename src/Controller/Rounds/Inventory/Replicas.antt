-- ===== src/Controller/Rounds/Inventory/Replicas.antt =====
-- The inventory of a replicated database.
use kind_music_streaming.Prelude.{◌≡◌, ◌≢◌, Bool, true, false, not, none, some, [], ◌∷◌, All}
use kind_music_streaming.Prelude.Int.{pos, eqb_ℤ}
use kind_music_streaming.Api.{DatabaseSpec, MusicService}
use kind_music_streaming.Exec.Yields.{Yields}
use kind_music_streaming.Platform.{stateful_set, service, autoscaler, secret, Library, Client}
use kind_music_streaming.Platform.Lawful.{Lawful}
use kind_music_streaming.Builder.{name_of}
use kind_music_streaming.Reconciler.Database
use kind_music_streaming.Reconciler.Database.{database_storage_spec}
use kind_music_streaming.Reconciler.Secret.{replication_enabled}
use kind_music_streaming.Reconciler.Authority.{Recreates}
use kind_music_streaming.Reconciler.Presence.{Present}
use kind_music_streaming.Reconciler.Inventory.{
  reconcile_master-Present, reconcile_services-Present, secret-Present, reconcile_replicas-Present,
  reconcile_db_autoscaler-Present,
}
use kind_music_streaming.Controller.Rounds.{database_steps, Succeed}
use kind_music_streaming.Controller.Rounds.Inventory.{
  only_if, replication_inventory, only_if-All, not-true,
}
use kind_music_streaming.Controller.Rounds.Inventory.Runs.{
  Succeed-here, Succeed-later, replication_steps-Kept,
}
use kind_music_streaming.Controller.Rounds.Inventory.Objects.{
  Holds, set_grants, service_grants, secret_grants,
}

module _ (lib : Library) (c : Client) (law : Lawful c) where
  module _ (ms : MusicService) (kept : Recreates ms → ⊥) where
    module _ (db : DatabaseSpec) (given : ms.spec.database ≡ some db) where
      replicas-Holds :
          (w w' : c.World)
          → Succeed lib c (database_steps lib c ms false) w w'
          → eqb_ℤ db.replicas (pos 0) ≡ false
          → Present c law stateful_set (name_of ms "-db-replica") w'
      unfolding database_steps
      replicas-Holds w w' run wanted =
          let key = name_of ms "-db-replica" in
          Succeed-later lib c (Present c law stateful_set key) _ _
            (λ v.
              Succeed-here lib c _ _ _
                (reconcile_replicas-Present lib c law ms kept db given wanted)
                (replication_steps-Kept lib c _ ms (set_grants lib c law ms kept key)).1.1)
            run

      secret-Holds :
          (w w' : c.World)
          → Succeed lib c (database_steps lib c ms false) w w'
          → eqb_ℤ db.replicas (pos 0) ≡ false
          → replication_enabled ms ≡ true
          → Present c law secret (name_of ms "-db-replication") w'
      unfolding database_steps
      secret-Holds w w' run wanted enabled =
          let key = name_of ms "-db-replication" in
          Succeed-later lib c (Present c law secret key) _ _
            (λ v.
              Succeed-here lib c _ _ _ (secret-Present lib c law ms kept db given wanted enabled)
                (replication_steps-Kept lib c _ ms (secret_grants lib c law ms kept key)).1.1)
            run

      pub replication_inventory-Holds :
          (w w' : c.World)
          → Succeed lib c (database_steps lib c ms false) w w'
          → All (Holds c law w') (replication_inventory ms (not (eqb_ℤ db.replicas (pos 0))))
      unfolding database_steps replication_inventory
      replication_inventory-Holds w w' run =
          let set = set_grants lib c law ms kept (name_of ms "-db-master") in
          let key = name_of ms "-db-master" in
          (
            Succeed-here lib c _ _ _ (reconcile_master-Present lib c law ms kept)
                (replication_steps-Kept lib c _ ms set).1 run,
            (
              Succeed-later lib c (Present c law service key) _ _
                  (λ v. Succeed-later lib c (Present c law service key) _ _ (λ u.
                    Succeed-here lib c _ _ _ (reconcile_services-Present lib c law ms kept)
                      (replication_steps-Kept lib c _ ms
                        (service_grants lib c law ms kept key)).1.1.1))
                  run,
              only_if-All (Holds c law w') (not (eqb_ℤ db.replicas (pos 0)))
                  ((stateful_set, name_of ms "-db-replica")
                    ∷ only_if (replication_enabled ms)
                        ((secret, name_of ms "-db-replication") ∷ []))
                  (λ replicated.
                    let wanted = not-true (eqb_ℤ db.replicas (pos 0)) replicated in
                    (
                      replicas-Holds w w' run wanted,
                      only_if-All (Holds c law w') (replication_enabled ms)
                          ((secret, name_of ms "-db-replication") ∷ [])
                          (λ enabled. (secret-Holds w w' run wanted enabled, tt)),
                    )),
            ),
          )

      pub replica_autoscaler-Holds :
          (galera : Bool) (w w' : c.World)
          → Succeed lib c (database_steps lib c ms galera) w w'
          → eqb_ℤ db.replicas (pos 0) ≡ false
          → db.autoscaling ≢ none
          → Present c law autoscaler (name_of ms "-db-replica-autoscaler") w'
      unfolding database_steps
      replica_autoscaler-Holds galera w w' run wanted scaled = by_topology galera run
        where
          P : c.World → Type 0
          P = Present c law autoscaler (name_of ms "-db-replica-autoscaler")

          yields : Yields P (Database.reconcile_autoscaler lib c ms)
          yields = reconcile_db_autoscaler-Present lib c law ms kept db given wanted scaled

          by_topology : (galera : Bool) → Succeed lib c (database_steps lib c ms galera) w w' → P w'
          by_topology true run =
              Succeed-later lib c P _ _
                (λ v. Succeed-later lib c P _ _ (λ u. Succeed-here lib c P _ _ yields tt)) run
          by_topology false run =
              Succeed-later lib c P _ _
                (λ v.
                  Succeed-later lib c P _ _
                    (λ u. Succeed-later lib c P _ _ (λ t. Succeed-here lib c P _ _ yields tt)))
                run

-- ===== src/Controller/Rounds/Inventory/Complete.antt =====
-- The whole inventory after the steps of a round.
use kind_music_streaming.Prelude.{
  ◌≡◌, refl, Bool, true, false, not, ◌&&◌, Option, none, some, [], ◌∷◌, ◌++◌, All, if◌then◌else◌,
}
use kind_music_streaming.Prelude.Int.{pos, eqb_ℤ}
use kind_music_streaming.Api.{DatabaseSpec, MusicServiceStatus, MusicService}
use kind_music_streaming.Platform.{autoscaler, Library, Client}
use kind_music_streaming.Platform.Lawful.{Lawful}
use kind_music_streaming.Builder.{name_of}
use kind_music_streaming.Reconciler.Database.{database_storage_spec}
use kind_music_streaming.Reconciler.Secret.{replication_enabled}
use kind_music_streaming.Reconciler.Authority.{Recreates}
use kind_music_streaming.Reconciler.Presence.{Present}
use kind_music_streaming.Status.Manager.{with_status, with_database, database_status}
use kind_music_streaming.Controller.{database_enabled, database_ha_enabled}
use kind_music_streaming.Controller.Authority.{with_status-Grants}
use kind_music_streaming.Controller.{reconcile_objects, finish}
use kind_music_streaming.Controller.Rounds.{
  reconcile_objects-completes, last_subject, app_steps, database_steps, steps, Succeed,
}
use kind_music_streaming.Controller.Rounds.Inventory.{
  is_given, only_if, app_inventory, galera_inventory, replication_inventory, database_inventory,
  inventory, append-All, only_if-All, given-some, not-true, and-true,
}
use kind_music_streaming.Controller.Rounds.Inventory.Runs.{
  Succeed-split, Succeed-Kept, database_steps-Kept,
}
use kind_music_streaming.Controller.Rounds.Inventory.Objects.{
  Holds, app_inventory-Holds, galera_inventory-Holds,
}
use kind_music_streaming.Controller.Rounds.Inventory.Replicas.{
  replication_inventory-Holds, replica_autoscaler-Holds,
}

module _ (lib : Library) (c : Client) (law : Lawful c) where
  module _ (ms : MusicService) (kept : Recreates ms → ⊥) where
    -- The database's objects, in either topology.
    database_inventory-Holds :
        (o : Option DatabaseSpec) (w w' : c.World)
        → ms.spec.database ≡ o
        → Succeed lib c (database_steps lib c ms (database_ha_enabled ms)) w w'
        → All (Holds c law w') (database_inventory ms o)
    unfolding database_inventory
    database_inventory-Holds none w w' given run = tt
    database_inventory-Holds (some db) w w' given run =
        append-All (Holds c law w') _ _ (by_topology (database_ha_enabled ms) run) (
          only_if-All (Holds c law w') (replicated && is_given db.autoscaling)
            ((autoscaler, name_of ms "-db-replica-autoscaler") ∷ [])
            (λ scaled. (autoscaled scaled, tt)))
      where
        replicated : Bool
        replicated = not (eqb_ℤ db.replicas (pos 0))

        by_topology :
            (galera : Bool)
            → Succeed lib c (database_steps lib c ms galera) w w'
            → All
                (Holds c law w')
                (if galera then galera_inventory ms else replication_inventory ms replicated)
        by_topology true run = galera_inventory-Holds lib c law ms kept w w' run
        by_topology false run = replication_inventory-Holds lib c law ms kept db given w w' run

        autoscaled :
            (replicated && is_given db.autoscaling) ≡ true
            → Present c law autoscaler (name_of ms "-db-replica-autoscaler") w'
        autoscaled both =
            let (first, second) = and-true replicated (is_given db.autoscaling) both in
            replica_autoscaler-Holds lib c law ms kept db given (database_ha_enabled ms) w w' run
              (not-true (eqb_ℤ db.replicas (pos 0)) first) (given-some db.autoscaling second)

  Recreates-status :
      (ms : MusicService) (s : MusicServiceStatus) → Recreates (with_status ms s) → Recreates ms
  unfolding database_storage_spec
  Recreates-status ms s r = r

  database_inventory-status :
      (ms : MusicService) (s : MusicServiceStatus) (o : Option DatabaseSpec)
      → database_inventory (with_status ms s) o ≡ database_inventory ms o
  unfolding database_inventory galera_inventory replication_inventory replication_enabled name_of
      database_ha_enabled
  database_inventory-status ms s none = refl
  database_inventory-status ms s (some db) = refl

  enabled-inventory :
      (ms : MusicService) (w w' : c.World)
      → (Recreates ms → ⊥)
      → Succeed lib c
          (app_steps lib c ms
            ++ database_steps lib c
                (with_database ms (database_status ms))
                (database_ha_enabled ms))
          w
          w'
      → All (Holds c law w') (app_inventory ms ++ database_inventory ms ms.spec.database)
  unfolding database_ha_enabled
  enabled-inventory ms w w' kept run =
      let ms' = with_database ms (database_status ms) in
      let (w₁, app, database) = Succeed-split lib c (app_steps lib c ms) run in
      append-All (Holds c law w') (app_inventory ms) (database_inventory ms ms.spec.database)
        (app_inventory-Holds lib c law ms kept w w₁ w' app (λ P g.
          Succeed-Kept lib c P _
            (database_steps-Kept lib c P ms' (with_status-Grants lib c ms P ms'.status g)
              (database_ha_enabled ms))
            database))
        (rw (← database_inventory-status ms ms'.status ms.spec.database) (
          database_inventory-Holds ms' (λ r. kept (Recreates-status ms ms'.status r))
            ms.spec.database w₁ w' refl database))

  steps-inventory :
      (ms : MusicService) (w w' : c.World)
      → (Recreates ms → ⊥)
      → Succeed lib c (steps lib c ms) w w'
      → All (Holds c law w') (inventory ms)
  unfolding steps inventory only_if
  steps-inventory ms w w' kept run = by_database (database_enabled ms) run
    where
      by_database :
          (enabled : Bool)
          → Succeed lib c
              (if enabled
                then app_steps lib c ms
                  ++ database_steps lib c
                      (with_database ms (database_status ms))
                      (database_ha_enabled ms)
                else app_steps lib c ms)
              w
              w'
          → All
              (Holds c law w')
              (app_inventory ms ++ only_if enabled (database_inventory ms ms.spec.database))
      by_database true run = enabled-inventory ms w w' kept run
      by_database false run =
          append-All (Holds c law w') (app_inventory ms) []
            (app_inventory-Holds lib c law ms kept w w' w' run (λ P g p. p)) tt

  -- On a lawful server: when all steps of a round succeed, and no storage policy is Recreate, the
  -- round goes on to its end from a state in which the server holds every object that the spec calls
  -- for: the application's service and StatefulSet, its autoscaler where the spec has one, and the
  -- StatefulSets, services, autoscaler and replication secret of an enabled database in its topology,
  -- but for the read service of a replicated one.
  pub reconcile_objects-inventory :
      (ms : MusicService) (w w' : c.World)
      → (Recreates ms → ⊥)
      → Succeed lib c (steps lib c ms) w w'
      → (reconcile_objects lib c ms w ≡ finish lib c (last_subject lib c ms) w')
        × All (Holds c law w') (inventory ms)
  reconcile_objects-inventory ms w w' kept run =
      (reconcile_objects-completes lib c ms w w' run, steps-inventory ms w w' kept run)

-- ===== src/Controller/Rounds/Inventory/Objects.antt =====
-- The inventory of the application, and that of a Galera cluster.
use kind_music_streaming.Prelude.{◌≢◌, true, none, All, arith}
use kind_music_streaming.Kube.{NamespacedName}
use kind_music_streaming.Api.{MusicService}
use kind_music_streaming.Exec.Yields.{Yields}
use kind_music_streaming.Platform.{stateful_set, service, autoscaler, secret, Library, Client}
use kind_music_streaming.Platform.Lawful.{Lawful}
use kind_music_streaming.Builder.{name_of}
use kind_music_streaming.Reconciler.App.{app_key}
use kind_music_streaming.Reconciler.Database
use kind_music_streaming.Reconciler.Database.{database_storage_spec}
use kind_music_streaming.Reconciler.Authority.{Grants, Recreates}
use kind_music_streaming.Reconciler.Presence.{Present, Present-Grants}
use kind_music_streaming.Reconciler.Inventory.{
  reconcile_service-Present, reconcile_stateful_set-Present, reconcile_autoscaler-Present,
  reconcile_galera-Present, galera_service-Present, galera_primary-Present, galera_read-Present,
}
use kind_music_streaming.Controller.Rounds.{app_steps, database_steps, Succeed}
use kind_music_streaming.Controller.Rounds.Inventory.{
  Item, app_inventory, galera_inventory, only_if-All, given-some,
}
use kind_music_streaming.Controller.Rounds.Inventory.Runs.{
  Succeed-here, Succeed-later, app_steps-Kept, galera_steps-Kept,
}

-- The server holds the item.
abbrev pub Holds : (c : Client) → Lawful c → c.World → Item → Type 0
Holds c law w (k, key) = Present c law k key w

module _ (lib : Library) (c : Client) (law : Lawful c) where
  module _ (ms : MusicService) (kept : Recreates ms → ⊥) where
    pub set_grants : (key : NamespacedName) → Grants lib c ms (Present c law stateful_set key)
    set_grants key = Present-Grants c law stateful_set key lib ms kept (λ e. absurd (ground arith))

    pub service_grants : (key : NamespacedName) → Grants lib c ms (Present c law service key)
    service_grants key = Present-Grants c law service key lib ms kept (λ e. absurd (ground arith))

    pub secret_grants : (key : NamespacedName) → Grants lib c ms (Present c law secret key)
    secret_grants key = Present-Grants c law secret key lib ms kept (λ e. absurd (ground arith))

    pub autoscaler_grants :
        ms.spec.autoscaling ≢ none
        → Grants lib c ms (Present c law autoscaler (name_of ms "-autoscaler"))
    autoscaler_grants scaled =
        Present-Grants c law autoscaler (name_of ms "-autoscaler") lib ms kept (λ _. scaled)

    -- What follows the application's steps keeps what they have seen to.
    pub app_inventory-Holds :
        (w w₁ w' : c.World)
        → Succeed lib c (app_steps lib c ms) w w₁
        → ((P : c.World → Type 0) → Grants lib c ms P → P w₁ → P w')
        → All (Holds c law w') (app_inventory ms)
    unfolding app_steps app_inventory
    app_inventory-Holds w w₁ w' run later =
        let svc = service_grants (app_key ms) in
        let set = set_grants (app_key ms) in
        (
          later _ svc (
              Succeed-here lib c _ _ _ (reconcile_service-Present lib c law ms kept)
                (app_steps-Kept lib c _ ms svc).1 run),
          (
            later _ set (
                Succeed-later lib c (Present c law stateful_set (app_key ms)) _ _
                  (λ v.
                    Succeed-here lib c _ _ _ (reconcile_stateful_set-Present lib c law ms kept)
                      (app_steps-Kept lib c _ ms set).1.1)
                  run),
            only_if-All (Holds c law w') _ _ (λ wanted.
                let scaled = given-some ms.spec.autoscaling wanted in
                let P = Present c law autoscaler (name_of ms "-autoscaler") in
                (
                  later P (autoscaler_grants scaled) (
                      Succeed-later lib c P _ _
                        (λ v. Succeed-later lib c P _ _ (λ u.
                          Succeed-here lib c P _ _
                            (reconcile_autoscaler-Present lib c law ms kept scaled) tt))
                        run),
                  tt,
                )),
          ),
        )

    pub galera_inventory-Holds :
        (w w' : c.World)
        → Succeed lib c (database_steps lib c ms true) w w'
        → All (Holds c law w') (galera_inventory ms)
    unfolding database_steps galera_inventory
    galera_inventory-Holds w w' run =
        let set = set_grants (name_of ms "-db-galera") in
        (
          Succeed-here lib c _ _ _ (reconcile_galera-Present lib c law ms kept)
              (galera_steps-Kept lib c _ ms set).1 run,
          (
            serves (name_of ms "-db-galera") (galera_service-Present lib c law ms kept),
            (
              serves (name_of ms "-db-master") (galera_primary-Present lib c law ms kept),
              (serves (name_of ms "-db-read") (galera_read-Present lib c law ms kept), tt),
            ),
          ),
        )
      where
        serves :
            (key : NamespacedName)
            → Yields (Present c law service key) (Database.reconcile_galera_services lib c ms)
            → Present c law service key w'
        serves key yields =
            let g = service_grants key in
            Succeed-later lib c (Present c law service key) _ _
              (λ v. Succeed-here lib c _ _ _ yields (galera_steps-Kept lib c _ ms g).1.1) run

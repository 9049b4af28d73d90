-- ===== src/Reconciler/Inventory/Objects.antt =====
-- The objects that each reconciler sees to on a lawful server.
use kind_music_streaming.Prelude.{◌<>◌, ◌≢◌, refl, inl, inr, Option, none, some, arith}
use kind_music_streaming.Prelude.Int.{pos, ltb_ℤ}
use kind_music_streaming.Kube.{NamespacedName}
use kind_music_streaming.Api.{AutoscalingSpec, MusicService}
use kind_music_streaming.Exec.{ok, lift, deref}
use kind_music_streaming.Exec.Keeps.{Keeps-pure, Keeps-lift, Keeps-if, Keeps-bind}
use kind_music_streaming.Exec.Yields.{Yields, Yields-keep, Yields-after, Yields-handle}
use kind_music_streaming.Platform.{Kind, stateful_set, service, autoscaler, Library, Client}
use kind_music_streaming.Platform.Lawful.{Lawful}
use kind_music_streaming.Builder.{
  name_of, build_app_service, build_autoscaler, build_database_galera_service,
  build_database_galera_primary_service, build_database_galera_read_service,
  build_database_master_service,
}
use kind_music_streaming.Builder.Ownership.{
  build_database_galera_primary_service-IsOwned, build_database_galera_read_service-IsOwned,
}
use kind_music_streaming.Builder.Keys.{
  ok-HasKey, build_app_stateful_set-HasKey, build_database_master_stateful_set-HasKey,
  build_database_galera_stateful_set-HasKey, build_autoscaler-HasKey,
}
use kind_music_streaming.Reconciler.App
use kind_music_streaming.Reconciler.App.{app_key}
use kind_music_streaming.Reconciler.Database
use kind_music_streaming.Reconciler.Authority.{
  Grants, Recreates, update_autoscaler-Keeps, ensure_service-Keeps, read_service-Keeps,
}
use kind_music_streaming.Reconciler.Presence.{
  Present, Present-Grants, get-Present, create_missing-Present, ensure-Present,
  reconcile_set-Present,
}
use kind_music_streaming.Reconciler.Ensure.{ensure}

module _ (lib : Library) (c : Client) (law : Lawful c) (ms : MusicService)
    (kept : Recreates ms → ⊥) where
  -- The object of a kind under a key is there.
  abbrev There : Kind → NamespacedName → c.World → Type 0
  There k key = Present c law k key

  service-Grants : (key : NamespacedName) → Grants lib c ms (There service key)
  service-Grants key = Present-Grants c law service key lib ms kept (λ e. absurd (ground arith))

  pub reconcile_service-Present :
      Yields (There service (app_key ms)) (App.reconcile_service lib c ms)
  unfolding App.reconcile_service build_app_service
  reconcile_service-Present =
      ensure-Present c law service _ _ (ok-HasKey service (build_app_service lib ms))

  pub reconcile_stateful_set-Present :
      Yields (There stateful_set (app_key ms)) (App.reconcile_stateful_set lib c ms)
  unfolding App.reconcile_stateful_set
  reconcile_stateful_set-Present =
      reconcile_set-Present c law (app_key ms) lib ms kept _ ms.spec.storage "music-data"
        ms.metadata.name (build_app_stateful_set-HasKey lib ms) inl

  autoscaler-Grants :
      (key : NamespacedName) → ms.spec.autoscaling ≢ none → Grants lib c ms (There autoscaler key)
  autoscaler-Grants key scaled = Present-Grants c law autoscaler key lib ms kept (λ _. scaled)

  autoscale-Present :
      (o : Option AutoscalingSpec)
      → ms.spec.autoscaling ≢ none
      → o ≢ none
      → Yields (There autoscaler (name_of ms "-autoscaler")) (App.autoscale lib c ms o)
  unfolding App.autoscale
  autoscale-Present none scaled other = absurd (other refl)
  autoscale-Present (some a) scaled other =
      let key = name_of ms "-autoscaler" in
      Yields-handle (c.get autoscaler key) _ _ (get-Present c law autoscaler key)
        (λ e.
          create_missing-Present c law autoscaler key (build_autoscaler lib ms) e
            (build_autoscaler-HasKey lib ms))
        (λ hpa.
          Keeps-bind (lift (build_autoscaler lib ms)) _ (Keeps-lift _)
            (update_autoscaler-Keeps lib c ms _ (autoscaler-Grants key scaled) hpa))

  pub reconcile_autoscaler-Present :
      ms.spec.autoscaling ≢ none
      → Yields (There autoscaler (name_of ms "-autoscaler")) (App.reconcile_autoscaler lib c ms)
  unfolding App.reconcile_autoscaler
  reconcile_autoscaler-Present scaled = autoscale-Present ms.spec.autoscaling scaled scaled

  pub reconcile_master-Present :
      Yields (There stateful_set (name_of ms "-db-master")) (Database.reconcile_master lib c ms)
  unfolding Database.reconcile_master
  reconcile_master-Present =
      reconcile_set-Present c law (name_of ms "-db-master") lib ms kept _
        (Database.database_storage_spec ms) "db-data" (ms.metadata.name <> "-db-master")
        (build_database_master_stateful_set-HasKey lib ms) inr

  pub reconcile_galera-Present :
      Yields (There stateful_set (name_of ms "-db-galera")) (Database.reconcile_galera lib c ms)
  unfolding Database.reconcile_galera
  reconcile_galera-Present =
      reconcile_set-Present c law (name_of ms "-db-galera") lib ms kept _
        (Database.database_storage_spec ms) "db-data" (ms.metadata.name <> "-db-galera")
        (build_database_galera_stateful_set-HasKey lib ms) inr

  pub reconcile_services-Present :
      Yields (There service (name_of ms "-db-master")) (Database.reconcile_services lib c ms)
  unfolding Database.reconcile_services build_database_master_service
  reconcile_services-Present =
      let g = service-Grants (name_of ms "-db-master") in
      Yields-keep _ _
        (ensure-Present c law service _ _
          (ok-HasKey service (build_database_master_service lib ms)))
        (λ _. Keeps-bind (lift (deref ms.spec.database)) _ (Keeps-lift _) (λ db.
          Keeps-if (ltb_ℤ (pos 0) db.replicas) _ _ (λ _. read_service-Keeps lib c ms _ g)
            (λ _. Keeps-pure tt)))

  pub galera_service-Present :
      Yields (There service (name_of ms "-db-galera")) (Database.reconcile_galera_services lib c ms)
  unfolding Database.reconcile_galera_services build_database_galera_service
  galera_service-Present =
      let g = service-Grants (name_of ms "-db-galera") in
      Yields-keep _ _
        (ensure-Present c law service _ _
          (ok-HasKey service (build_database_galera_service lib ms)))
        (λ _.
          Keeps-bind _ _
            (ensure_service-Keeps lib c ms _ g _ _
              (build_database_galera_primary_service-IsOwned lib ms))
            (λ _.
              ensure_service-Keeps lib c ms _ g _ _
                (build_database_galera_read_service-IsOwned lib ms)))

  pub galera_primary-Present :
      Yields (There service (name_of ms "-db-master")) (Database.reconcile_galera_services lib c ms)
  unfolding Database.reconcile_galera_services build_database_galera_primary_service
  galera_primary-Present =
      let g = service-Grants (name_of ms "-db-master") in
      Yields-after _ _ (λ _.
        Yields-keep _ _
          (ensure-Present c law service _ _
            (ok-HasKey service (build_database_galera_primary_service lib ms)))
          (λ _.
            ensure_service-Keeps lib c ms _ g _ _
              (build_database_galera_read_service-IsOwned lib ms)))

  pub galera_read-Present :
      Yields (There service (name_of ms "-db-read")) (Database.reconcile_galera_services lib c ms)
  unfolding Database.reconcile_galera_services build_database_galera_read_service
  galera_read-Present =
      Yields-after
        (ensure c service (name_of ms "-db-galera") (ok (build_database_galera_service lib ms))) _
        (λ _.
          Yields-after
            (ensure c service (name_of ms "-db-master")
              (ok (build_database_galera_primary_service lib ms)))
            _
            (λ _.
              ensure-Present c law service _ _
                (ok-HasKey service (build_database_galera_read_service lib ms))))

-- ===== src/Controller/Rounds/Quiescence.antt =====
-- A round where the server already holds what the round would bring about.
use kind_music_streaming.Prelude.{
  ◌≡◌, ◌∙◌, refl, Bool, true, false, Option, none, some, List, [], ◌∷◌, All, Bool-cases, inl, inr,
}
use kind_music_streaming.Api.{DatabaseSpec, MusicService}
use kind_music_streaming.Platform.{service, Library, Client}
use kind_music_streaming.Platform.Lawful.{Lawful}
use kind_music_streaming.Builder.{build_app_stateful_set}
use kind_music_streaming.Reconciler.App.{app_key}
use kind_music_streaming.Reconciler.Quiet.{
  View, OnlyReads, unread, Answers, Quiet, OnlyReads-trans, OnlyReads-view,
}
use kind_music_streaming.Reconciler.Quiescence.{
  IsThere, When, Applies, SetAsDesired, AppAutoscaler, ReplicaAutoscaler, reconcile_service-Quiet,
  reconcile_stateful_set-Quiet, reconcile_autoscaler-Quiet, reconcile_db_autoscaler-Quiet,
}
use kind_music_streaming.Reconciler.Quiescence.Databases.{
  GaleraAsDesired, ReplicationAsDesired, reconcile_master-Quiet, reconcile_replicas-Quiet,
  reconcile_services-Quiet, reconcile_galera-Quiet, reconcile_galera_services-Quiet,
}
use kind_music_streaming.Status.Manager.{with_database, database_status}
use kind_music_streaming.Controller.{
  database_enabled, database_ha_enabled, reconcile_objects, finish,
}
use kind_music_streaming.Controller.Rounds.{
  Step, app_steps, database_steps, steps, last_subject, Succeed, none_left, next,
  reconcile_objects-completes,
}
use kind_music_streaming.Controller.Rounds.Inventory.{append-All}

module _ (lib : Library) (V : View) where
  -- The objects of the database, in the two topologies.
  abbrev pub TopologyAsDesired : MusicService → DatabaseSpec → Bool → Type 0
  TopologyAsDesired ms db true = GaleraAsDesired lib V ms
  TopologyAsDesired ms db false = ReplicationAsDesired lib V ms db

  abbrev pub DatabaseAsDesired : MusicService → Bool → Option DatabaseSpec → Type 0
  DatabaseAsDesired ms galera none = ⊥
  DatabaseAsDesired ms galera (some db) =
      TopologyAsDesired ms db galera × ReplicaAutoscaler lib V ms db db.autoscaling

  -- Everything that a round would create or update is there as the spec has it.
  pub record AsDesired (ms : MusicService) : Type 0 where
    pub service_there : IsThere V service (app_key ms)
    pub set : SetAsDesired V (app_key ms) (build_app_stateful_set lib ms)
    pub autoscaler : AppAutoscaler lib V ms ms.spec.autoscaling
    pub database : When (database_enabled ms) (
        DatabaseAsDesired
          (with_database ms (database_status ms))
          (database_ha_enabled ms)
          ms.spec.database)

module _ (lib : Library) (c : Client) (law : Lawful c) (answers : Answers c law) where
  module _ (V : View) where
    QuietStep : Step c → Type 0
    QuietStep s = Quiet c law V s.run tt

    QuietStep-Succeed :
        (l : List (Step c))
        → All QuietStep l
        → (w : c.World) → law.view w ≡ V
        → (w' : c.World) × Succeed lib c l w w' × OnlyReads c w w'
    unfolding QuietStep
    QuietStep-Succeed [] quiet w held = (w, none_left, unread)
    QuietStep-Succeed (s ∷ l) (first, quiet) w held =
        let (w₁, ran, read) = first.runs w held in
        let (w₂, later, more) = QuietStep-Succeed l quiet w₁ (OnlyReads-view c law read ∙ held) in
        (w₂, next ran later, OnlyReads-trans c law read more)

    app_steps-QuietStep :
        (ms : MusicService) → AsDesired lib V ms → All QuietStep (app_steps lib c ms)
    unfolding app_steps QuietStep
    app_steps-QuietStep ms d = (
      reconcile_service-Quiet lib c law answers ms d.service_there,
      (
        reconcile_stateful_set-Quiet lib c law answers ms d.set,
        (reconcile_autoscaler-Quiet lib c law answers ms d.autoscaler, tt),
      ),
    )

    database_steps-QuietStep :
        (ms : MusicService) (galera : Bool) (db : DatabaseSpec)
        → ms.spec.database ≡ some db
        → TopologyAsDesired lib V ms db galera
        → ReplicaAutoscaler lib V ms db db.autoscaling
        → All QuietStep (database_steps lib c ms galera)
    unfolding database_steps QuietStep
    database_steps-QuietStep ms true db given d scaled = (
      reconcile_galera-Quiet lib c law answers ms d,
      (
        reconcile_galera_services-Quiet lib c law answers ms d,
        (reconcile_db_autoscaler-Quiet lib c law answers ms db given scaled, tt),
      ),
    )
    database_steps-QuietStep ms false db given d scaled = (
      reconcile_master-Quiet lib c law answers ms db given d,
      (
        reconcile_replicas-Quiet lib c law answers ms db given d,
        (
          reconcile_services-Quiet lib c law answers ms db given d,
          (reconcile_db_autoscaler-Quiet lib c law answers ms db given scaled, tt),
        ),
      ),
    )

    given_steps-QuietStep :
        (ms : MusicService) (galera : Bool) (o : Option DatabaseSpec)
        → ms.spec.database ≡ o
        → DatabaseAsDesired lib V ms galera o
        → All QuietStep (database_steps lib c ms galera)
    given_steps-QuietStep ms galera none given d = absurd d
    given_steps-QuietStep ms galera (some db) given (d, scaled) =
        database_steps-QuietStep ms galera db given d scaled

    steps-QuietStep : (ms : MusicService) → AsDesired lib V ms → All QuietStep (steps lib c ms)
    unfolding steps
    steps-QuietStep ms d = elim (Bool-cases (database_enabled ms)) [
      | inr without ↦ rw without (app_steps-QuietStep ms d)
      | inl enabled ↦ rw enabled (
          append-All QuietStep (app_steps lib c ms)
            (database_steps lib c (with_database ms (database_status ms)) (database_ha_enabled ms))
            (app_steps-QuietStep ms d)
            (given_steps-QuietStep (with_database ms (database_status ms)) (database_ha_enabled ms)
              ms.spec.database refl (Applies (database_enabled ms) enabled d.database)))
    ]

  -- On a lawful server that answers every read with what it holds: where the server holds everything
  -- that a round would create or update as the spec has it, and no autoscaler that the spec does not
  -- have, the round comes to its end and has made no call but reads of objects.
  pub reconcile_objects-OnlyReads :
      (ms : MusicService) (w : c.World)
      → AsDesired lib (law.view w) ms
      → (w' : c.World) × (reconcile_objects lib c ms w ≡ finish lib c (last_subject lib c ms) w')
        × OnlyReads c w w'
  reconcile_objects-OnlyReads ms w d =
      let (w', all_done, read) =
        QuietStep-Succeed (law.view w) (steps lib c ms) (steps-QuietStep (law.view w) ms d) w
          refl in
      (w', reconcile_objects-completes lib c ms w w' all_done, read)

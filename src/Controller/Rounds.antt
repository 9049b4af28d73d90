-- ===== src/Controller/Rounds.antt =====
-- The course of a round: where it ends, and what a failure leaves behind.
pub mod Inventory
pub mod Quiescence
use kind_music_streaming.Prelude.{
  String, ◌≡◌, refl, Bool, true, false, List, [], ◌∷◌, ◌++◌, Bool-cases, inl, inr, ◌∙◌, arith,
  if◌then◌else◌,
}
use kind_music_streaming.Api.{MusicService}
use kind_music_streaming.Exec.{Error, Exec, ok, err}
use kind_music_streaming.Platform.{Library, Client}
use kind_music_streaming.Reconciler.App
use kind_music_streaming.Reconciler.Database
use kind_music_streaming.Status.Manager.{with_database, database_status, update_error}
use kind_music_streaming.Controller.{
  Result, no_requeue, database_enabled, database_ha_enabled, or_report, reconcile_topology,
  reconcile_database, reconcile_objects, finish,
}

-- A step of a round: its run, and the MusicService and the reason that its failure is reported by.
pub record Step (c : Client) : Type 0 where
  pub subject : MusicService
  pub reason : String
  pub run : Exec c.World (Unit {0})

module _ (lib : Library) (c : Client) where
  step : MusicService → String → (MusicService → Exec c.World (Unit {0})) → Step c
  step ms reason f = record { subject = ms; reason = reason; run = f ms }

  -- The steps for the application.
  unfoldable pub app_steps : MusicService → List (Step c)
  unfolding step
  app_steps ms =
      step ms "ServiceFailed" (App.reconcile_service lib c)
      ∷ step ms "StatefulSetFailed" (App.reconcile_stateful_set lib c)
      ∷ step ms "AutoscalerFailed" (App.reconcile_autoscaler lib c)
      ∷ []

  -- The steps for the database, in the two topologies.
  unfoldable pub database_steps : MusicService → Bool → List (Step c)
  unfolding step
  database_steps ms true =
      step ms "DBGaleraFailed" (Database.reconcile_galera lib c)
      ∷ step ms "DBGaleraServicesFailed" (Database.reconcile_galera_services lib c)
      ∷ step ms "DBAutoscalerFailed" (Database.reconcile_autoscaler lib c)
      ∷ []
  database_steps ms false =
      step ms "DBMasterFailed" (Database.reconcile_master lib c)
      ∷ step ms "DBReplicasFailed" (Database.reconcile_replicas lib c)
      ∷ step ms "DBServicesFailed" (Database.reconcile_services lib c)
      ∷ step ms "DBAutoscalerFailed" (Database.reconcile_autoscaler lib c)
      ∷ []

  -- All steps of a round; those for the database are given a status with a part for it.
  unfoldable pub steps : MusicService → List (Step c)
  unfolding app_steps database_steps database_enabled database_ha_enabled database_status
  steps ms =
      if database_enabled ms
      then app_steps ms
        ++ database_steps (with_database ms (database_status ms)) (database_ha_enabled ms)
      else app_steps ms

  -- The MusicService whose status the end of the round computes.
  unfoldable pub last_subject : MusicService → MusicService
  unfolding database_enabled database_status
  last_subject ms = if database_enabled ms then with_database ms (database_status ms) else ms

  -- Steps that all succeed, one after the other.
  pub data Succeed : List (Step c) → c.World → c.World → Type 0 where
    none_left : {w : c.World} → Succeed [] w w
    next :
        {s : Step c} {rest : List (Step c)} {w w₁ w' : c.World}
        → s.run w ≡ (ok tt, w₁)
        → Succeed rest w₁ w'
        → Succeed (s ∷ rest) w w'

  in_order : List (Step c) → Exec c.World Result → Exec c.World Result
  unfolding or_report
  in_order [] rest = rest
  in_order (s ∷ more) rest = or_report lib c s.subject s.reason s.run (in_order more rest)

  reconcile_objects-in_order :
      (ms : MusicService)
      → reconcile_objects lib c ms ≡ in_order (steps ms) (finish lib c (last_subject ms))
  unfolding reconcile_objects reconcile_database reconcile_topology in_order steps last_subject
  reconcile_objects-in_order ms = elim (Bool-cases (database_enabled ms)) [
    | inr without ↦ rw without refl
    | inl enabled ↦ elim (Bool-cases (database_ha_enabled ms)) [
      | inl galera ↦ rw (enabled, galera) refl
      | inr replicated ↦ rw (enabled, replicated) refl
    ]
  ]

  in_order-Succeed :
      {done : List (Step c)} {w w' : c.World}
      → Succeed done w w'
      → (more : List (Step c)) (rest : Exec c.World Result)
      → in_order (done ++ more) rest w ≡ in_order more rest w'
  unfolding in_order or_report
  in_order-Succeed none_left more rest = refl
  in_order-Succeed (next ran later) more rest = ground (arith, in_order-Succeed later more rest)

  in_order-all :
      {done : List (Step c)} {w w' : c.World}
      → Succeed done w w'
      → (rest : Exec c.World Result) → in_order done rest w ≡ rest w'
  unfolding in_order or_report
  in_order-all none_left rest = refl
  in_order-all (next ran later) rest = ground (arith, in_order-all later rest)

  in_order-fails :
      (s : Step c) (more : List (Step c)) (rest : Exec c.World Result) (e : Error)
      (x : MusicService) (w w₁ w₂ : c.World)
      → s.run w ≡ (err e, w₁)
      → update_error c s.subject s.reason e.message w₁ ≡ (ok x, w₂)
      → in_order (s ∷ more) rest w ≡ (ok no_requeue, w₂)
  unfolding in_order or_report
  in_order-fails s more rest e x w w₁ w₂ failed told = ground arith

  -- When the steps of a round have succeeded up to one that fails, and the error can be written to
  -- the status, the round ends there: no later step is run, no error is returned, and no delay set.
  pub reconcile_objects-stops :
      (ms : MusicService) (done more : List (Step c)) (s : Step c) (e : Error) (x : MusicService)
      (w w₁ w₂ w₃ : c.World)
      → steps ms ≡ done ++ (s ∷ more)
      → Succeed done w w₁
      → s.run w₁ ≡ (err e, w₂)
      → update_error c s.subject s.reason e.message w₂ ≡ (ok x, w₃)
      → reconcile_objects lib c ms w ≡ (ok no_requeue, w₃)
  reconcile_objects-stops ms done more s e x w w₁ w₂ w₃ split before failed told =
      rw (reconcile_objects-in_order ms, split)
        (in_order-Succeed before (s ∷ more) (finish lib c (last_subject ms))
          ∙ in_order-fails s more _ e x w₁ w₂ w₃ failed told)

  -- When all its steps succeed, a round goes on to its end.
  pub reconcile_objects-completes :
      (ms : MusicService) (w w' : c.World)
      → Succeed (steps ms) w w'
      → reconcile_objects lib c ms w ≡ finish lib c (last_subject ms) w'
  reconcile_objects-completes ms w w' all_done =
      rw (reconcile_objects-in_order ms) (in_order-all all_done (finish lib c (last_subject ms)))

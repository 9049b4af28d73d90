-- ===== src/Controller/Rounds/Inventory/Runs.antt =====
-- Runs of steps that all succeed, and what they keep.
use kind_music_streaming.Prelude.{Bool, true, false, List, [], ◌∷◌, ◌++◌, All}
use kind_music_streaming.Api.{MusicService}
use kind_music_streaming.Exec.Keeps.{Keeps}
use kind_music_streaming.Exec.Yields.{Yields}
use kind_music_streaming.Platform.{Library, Client}
use kind_music_streaming.Reconciler.Authority.{
  Grants, reconcile_service-Keeps, reconcile_stateful_set-Keeps, reconcile_autoscaler-Keeps,
  reconcile_galera-Keeps, reconcile_galera_services-Keeps, reconcile_master-Keeps,
  reconcile_replicas-Keeps, reconcile_services-Keeps, reconcile_db_autoscaler-Keeps,
}
use kind_music_streaming.Controller.Rounds.{
  Step, app_steps, database_steps, Succeed, none_left, next,
}

module _ (lib : Library) (c : Client) where
  pub Succeed-split :
      (xs : List (Step c)) {ys : List (Step c)} {w w' : c.World}
      → Succeed lib c (xs ++ ys) w w'
      → (w₁ : c.World) × Succeed lib c xs w w₁ × Succeed lib c ys w₁ w'
  Succeed-split [] run = (_, none_left, run)
  Succeed-split (x ∷ xs) (next ran later) =
      let (w₁, before, after) = Succeed-split xs later in (w₁, next ran before, after)

  module _ (P : c.World → Type 0) where
    abbrev pub Kept : List (Step c) → Type 0
    Kept l = All (λ s. Keeps P s.run) l

    pub Succeed-Kept :
        (l : List (Step c)) {w w' : c.World} → Kept l → Succeed lib c l w w' → P w → P w'
    Succeed-Kept [] k none_left p = p
    Succeed-Kept (s ∷ l) (k, ks) (next {w = w} ran later) p =
        Succeed-Kept l ks later (rw ran at (k.at w p))

    -- The first step sees to it, and the others keep it.
    pub Succeed-here :
        (s : Step c) (l : List (Step c)) {w w' : c.World}
        → Yields P s.run
        → Kept l
        → Succeed lib c (s ∷ l) w w'
        → P w'
    Succeed-here s l yields ks (next {w = w} {w₁ = w₁} ran later) =
        Succeed-Kept l ks later (yields.at w w₁ tt ran)

    pub Succeed-later :
        (s : Step c) (l : List (Step c)) {w w' : c.World}
        → ((w₁ : c.World) → Succeed lib c l w₁ w' → P w')
        → Succeed lib c (s ∷ l) w w'
        → P w'
    Succeed-later s l after (next {w₁ = w₁} ran later) = after w₁ later

    module _ (ms : MusicService) (g : Grants lib c ms P) where
      pub app_steps-Kept : Kept (app_steps lib c ms)
      unfolding app_steps
      app_steps-Kept = (
        reconcile_service-Keeps lib c ms P g,
        (reconcile_stateful_set-Keeps lib c ms P g, (reconcile_autoscaler-Keeps lib c ms P g, tt)),
      )

      pub galera_steps-Kept : Kept (database_steps lib c ms true)
      unfolding database_steps
      galera_steps-Kept = (
        reconcile_galera-Keeps lib c ms P g,
        (
          reconcile_galera_services-Keeps lib c ms P g,
          (reconcile_db_autoscaler-Keeps lib c ms P g, tt),
        ),
      )

      pub replication_steps-Kept : Kept (database_steps lib c ms false)
      unfolding database_steps
      replication_steps-Kept = (
        reconcile_master-Keeps lib c ms P g,
        (
          reconcile_replicas-Keeps lib c ms P g,
          (reconcile_services-Keeps lib c ms P g, (reconcile_db_autoscaler-Keeps lib c ms P g, tt)),
        ),
      )

      pub database_steps-Kept : (galera : Bool) → Kept (database_steps lib c ms galera)
      database_steps-Kept true = galera_steps-Kept
      database_steps-Kept false = replication_steps-Kept

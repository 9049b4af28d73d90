-- ===== src/Reconciler/Presence.antt =====
-- The presence of an object on a lawful server, and the code that brings it about or keeps it.
use kind_music_streaming.Prelude.{String, ◌≡◌, ◌≢◌, refl, ◌⊎◌, inl, inr, none, arith}
use kind_music_streaming.Kube.{NamespacedName, StatefulSet}
use kind_music_streaming.Api.{StorageSpec, MusicService, storage_update_policy_recreate}
use kind_music_streaming.Exec.{Error, Outcome}
use kind_music_streaming.Exec.Keeps.{Keeps, Keeps-pure, Keeps-bind-lift}
use kind_music_streaming.Exec.Yields.{Yields, Yields-raise, Yields-if, Yields-lift, Yields-handle}
use kind_music_streaming.Platform.{
  Kind, stateful_set, service, autoscaler, secret, claim, music_service, Obj, Library, Client,
}
use kind_music_streaming.Platform.Lawful.{Lawful, key_of}
use kind_music_streaming.Builder.Keys.{HasKey}
use kind_music_streaming.Reconciler.Authority.{Grants, Recreates, update_set-Keeps}
use kind_music_streaming.Reconciler.Storage.{storage_update_policy}
use kind_music_streaming.Reconciler.Ensure.{create_missing, ensure, reconcile_set}

is_autoscaler : (k : Kind) → (k ≡ autoscaler) ⊎ (k ≢ autoscaler)
is_autoscaler autoscaler = inl refl
is_autoscaler stateful_set = inr (λ e. ground arith)
is_autoscaler service = inr (λ e. ground arith)
is_autoscaler secret = inr (λ e. ground arith)
is_autoscaler claim = inr (λ e. ground arith)
is_autoscaler music_service = inr (λ e. ground arith)

module _ (c : Client) (law : Lawful c) (k : Kind) (key : NamespacedName) where
  abbrev pub Present : c.World → Type 0
  Present w = law.view w k key ≢ none

  pub update-Keeps : (j : Kind) (o : Obj j) → j ≢ music_service → Keeps Present (c.update j o)
  update-Keeps j o other = record { at = λ w. law.update_stays j o w k key other }

  module _ (lib : Library) (ms : MusicService) where
    -- Where no storage is recreated nothing but the application's autoscaler goes away.
    pub Present-Grants :
        (Recreates ms → ⊥) → (k ≡ autoscaler → ms.spec.autoscaling ≢ none) → Grants lib c ms Present
    Present-Grants kept scaled = record {
      gets = λ j other. record { at = λ w there. rw law.get_same there };
      lists = λ namespace. record { at = λ w there. rw law.list_same there };
      random = λ n. record { at = λ w there. rw law.random_same there };
      creates = λ j o _. record { at = λ w. law.create_stays j o w k key };
      updates_set = λ o. update-Keeps stateful_set o (λ e. ground arith);
      updates_autoscaler = λ o. update-Keeps autoscaler o (λ e. ground arith);
      updates_secret = λ o. update-Keeps secret o (λ e. ground arith);
      grows = λ pvc old new _ _. update-Keeps claim _ (λ e. ground arith);
      deletes_autoscaler = λ without hpa. elim (is_autoscaler k) [
        | inl is ↦ absurd (scaled is without)
        | inr other ↦ record { at = λ w there. rw (law.autoscalers_apart hpa w k key other) there }
      ];
      deletes_set = λ recreates. absurd (kept recreates);
      deletes_claim = λ recreates. absurd (kept recreates);
    }

  pub create-Present : (o : Obj k) → key_of k o ≡ key → Yields Present (c.create k o)
  create-Present o named = record {
    at = λ w w' a run. let stored = law.create_stores k o w w' run in ground (arith);
  }

  pub get-Present : Yields Present (c.get k key)
  get-Present = record {
    at = λ w w' o run.
        let found = law.get_found k key w w' o run in
        let same : law.view w' ≡ law.view w = rw run at (law.get_same k key w) in
        rw (same, found) (λ e. ground arith);
  }

  pub create_missing-Present :
      (build : Outcome (Obj k)) (e : Error)
      → HasKey k build key
      → Yields Present (create_missing c k build e)
  unfolding create_missing
  create_missing-Present build e named =
      Yields-if e.is_not_found _ _
        (λ _. Yields-lift build (c.create k) (λ o built. create-Present o (named o built)))
        (λ _. Yields-raise e)

  pub ensure-Present :
      (build : Outcome (Obj k)) → HasKey k build key → Yields Present (ensure c k key build)
  unfolding ensure
  ensure-Present build named =
      Yields-handle (c.get k key) (create_missing c k build) _ get-Present
        (λ e. create_missing-Present build e named) (λ o. Keeps-pure tt)

module _ (c : Client) (law : Lawful c) (key : NamespacedName) (lib : Library) (ms : MusicService)
    (kept : Recreates ms → ⊥) where
  set-Grants : Grants lib c ms (Present c law stateful_set key)
  set-Grants = Present-Grants c law stateful_set key lib ms kept (λ e. absurd (ground arith))

  pub reconcile_set-Present :
      (build : Outcome StatefulSet) (storage : StorageSpec) (a b : String)
      → HasKey stateful_set build key
      → (storage_update_policy storage ≡ storage_update_policy_recreate → Recreates ms)
      → Yields (Present c law stateful_set key) (reconcile_set c key build storage a b)
  unfolding reconcile_set
  reconcile_set-Present build storage a b named permitted =
      Yields-handle (c.get stateful_set key) _ _ (get-Present c law stateful_set key)
        (λ e. create_missing-Present c law stateful_set key build e named)
        (λ sts. Keeps-bind-lift build _ (λ desired _.
          update_set-Keeps lib c ms (Present c law stateful_set key) set-Grants storage a b sts
            desired permitted))

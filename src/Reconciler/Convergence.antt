-- ===== src/Reconciler/Convergence.antt =====
-- What a reconciliation that succeeds has achieved on a lawful server.
mod Updates
mod Sizes
pub use Updates.*
pub use Sizes.*
use kind_music_streaming.Prelude.{
  String, Bool, ◌≡◌, ◌≢◌, refl, ◌∙◌, ap, true, false, ◌⊎◌, inl, inr, Option, none, some, List, [],
  ◌∷◌, lookup, arith, Bool-cases, ◌===◌, if◌then◌else◌, eq_iff,
}
use kind_music_streaming.Kube.{Quantity, NamespacedName, PersistentVolumeClaim, StatefulSet}
use kind_music_streaming.Api.{StorageSpec, MusicService, storage_update_policy_recreate}
use kind_music_streaming.Exec.{Error, Outcome, ok, Exec, pure, lift, ◌>>=◌}
use kind_music_streaming.Exec.Keeps.{Keeps, keeps_rules, Keeps-pure, Keeps-bind}
use kind_music_streaming.Exec.Inversion.{raise_not_ok, pure_ok, lift_ok, bind_ok, handle_ok}
use kind_music_streaming.Platform.{stateful_set, claim, Library, Client}
use kind_music_streaming.Platform.Lawful.{Lawful, key_of}
use kind_music_streaming.Reconciler.Storage.{
  storage_update_policy, storage_size_changed, list_pvcs_by_prefix, resize_from, resize_each,
  resize_pvc, resize_to, resize_pvcs,
}
use kind_music_streaming.Reconciler.Compare.{stateful_set_needs_update}
use kind_music_streaming.Builder.{build_app_stateful_set}
use kind_music_streaming.Reconciler.App.{app_key, reconcile_stateful_set}
use kind_music_streaming.Reconciler.Ensure.{
  create_missing, roll_out, update_stateful_set, reconcile_set,
}

module _ (c : Client) (law : Lawful c) where
  create_missing-Settled :
      (key : NamespacedName) (build : Outcome StatefulSet) (desired : StatefulSet) (e : Error)
      (w w' : c.World)
      → build ≡ ok desired
      → key_of stateful_set desired ≡ key
      → create_missing c stateful_set build e w ≡ (ok tt, w')
      → Settled c law w' key desired
  unfolding create_missing
  create_missing-Settled key build desired e w w' built named run =
      elim (Bool-cases e.is_not_found) [
        | inr other ↦
            absurd (raise_not_ok (record e { is_not_found = false }) tt w w' (rw other at run))
        | inl missing ↦
            let creating = rw (missing, built) at run in
            let (new, w₁, lifted, made) =
              bind_ok (lift (ok desired)) (c.create stateful_set) tt w w' creating in
            let (same, _) = lift_ok (ok desired) new w w₁ lifted in
            let same_set : new ≡ desired = ground arith in
            record {
              set = law.stored w' stateful_set desired;
              present =
                  rw (← named) (law.create_stores stateful_set desired w₁ w' (rw same_set at made));
              fits = inl refl;
            }
      ]

  -- On a lawful server: when a StatefulSet that can be built for a key has been reconciled without
  -- an error, under another policy than Recreate, the server holds at the key the desired object as
  -- it stores it, or an older one with the spec of the desired one as it stores it, or one that
  -- needs no update to the desired one.
  pub reconcile_set-Settled :
      (key : NamespacedName) (build : Outcome StatefulSet) (storage : StorageSpec) (a b : String)
      (desired : StatefulSet) (w w' : c.World)
      → build ≡ ok desired
      → key_of stateful_set desired ≡ key
      → storage_update_policy storage ≢ storage_update_policy_recreate
      → reconcile_set c key build storage a b w ≡ (ok tt, w')
      → Settled c law w' key desired
  unfolding reconcile_set create_missing
  reconcile_set-Settled key build storage a b desired w w' built named kept run =
      let present_branch : StatefulSet → Exec c.World (Unit {0}) =
        λ sts. lift build >>= update_stateful_set c storage a b sts in
      let went =
        handle_ok (c.get stateful_set key) (create_missing c stateful_set build) present_branch tt w
          w' run in
      elim went [
        | inl (e, w₁, got, rest) ↦ create_missing-Settled key build desired e w₁ w' built named rest
        | inr (sts, w₁, got, rest) ↦
            let (new, w₂, lifted, updated) =
              bind_ok (lift build) (update_stateful_set c storage a b sts) tt w₁ w' rest in
            let (answer, stays) = lift_ok build new w₁ w₂ lifted in
            let found = law.get_found stateful_set key w w₁ sts got in
            let unread : law.view w₁ ≡ law.view w = rw got at (law.get_same stateful_set key w) in
            let there : law.view w₂ stateful_set key ≡ some sts = rw (← stays, unread) found in
            let new_desired : new ≡ desired = ground arith in
            update_stateful_set-Settled c law storage a b key sts desired w₂ w' kept there
              (rw new_desired at updated)
      ]

  build_app_stateful_set-key :
      (lib : Library) (ms : MusicService) (desired : StatefulSet)
      → build_app_stateful_set lib ms ≡ ok desired
      → key_of stateful_set desired ≡ app_key ms
  unfolding build_app_stateful_set app_key
  build_app_stateful_set-key lib ms desired built = ground arith

  -- On a lawful server: when the application's StatefulSet, which can be built, has been reconciled
  -- without an error, under another policy than Recreate, the server holds at its key the desired
  -- object as it stores it, or an older one with the spec of the desired one as it stores it, or
  -- one that needs no update to the desired one.
  pub reconcile_stateful_set-Settled :
      (lib : Library) (ms : MusicService) (desired : StatefulSet) (w w' : c.World)
      → build_app_stateful_set lib ms ≡ ok desired
      → storage_update_policy ms.spec.storage ≢ storage_update_policy_recreate
      → reconcile_stateful_set lib c ms w ≡ (ok tt, w')
      → Settled c law w' (app_key ms) desired
  unfolding reconcile_stateful_set app_key
  reconcile_stateful_set-Settled lib ms desired w w' built kept run =
      reconcile_set-Settled (app_key ms) (build_app_stateful_set lib ms) ms.spec.storage
        "music-data" ms.metadata.name desired w w' built
        (build_app_stateful_set-key lib ms desired built) kept run

module _ (c : Client) where
  -- A StatefulSet that is read with the desired storage size, and that needs no update, is left
  -- alone: the reconciliation makes no call but the one that reads it.
  pub reconcile_set-rests :
      (key : NamespacedName) (build : Outcome StatefulSet) (storage : StorageSpec) (a b : String)
      (sts desired : StatefulSet) (w w' : c.World)
      → build ≡ ok desired
      → c.get stateful_set key w ≡ (ok sts, w')
      → storage_size_changed sts desired ≡ false
      → stateful_set_needs_update sts desired ≡ ok false
      → reconcile_set c key build storage a b w ≡ (ok tt, w')
  unfolding reconcile_set update_stateful_set roll_out
  reconcile_set-rests key build storage a b sts desired w w' built read size pods = ground arith

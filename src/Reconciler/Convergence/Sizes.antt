-- ===== src/Reconciler/Convergence/Sizes.antt =====
-- A StatefulSet of which only the storage size is to change.
use kind_music_streaming.Prelude.{
  String, ◌≡◌, ◌≢◌, sym, ◌∙◌, false, inl, inr, some, arith, Bool-cases, ◌===◌, eq_iff,
}
use mathlib.Core.Option
use kind_music_streaming.Kube.{NamespacedName, StatefulSet}
use kind_music_streaming.Api.{StorageSpec, storage_update_policy_recreate}
use kind_music_streaming.Exec.{Outcome, ok, Exec, lift, ◌>>=◌}
use kind_music_streaming.Exec.Inversion.{raise_not_ok, pure_ok, lift_ok, bind_ok, handle_ok}
use kind_music_streaming.Platform.{stateful_set, Client}
use kind_music_streaming.Platform.Lawful.{Lawful}
use kind_music_streaming.Reconciler.Storage.{
  storage_update_policy, storage_size_changed, resize_pvcs,
}
use kind_music_streaming.Reconciler.Compare.{stateful_set_needs_update}
use kind_music_streaming.Reconciler.Ensure.{
  create_missing, roll_out, update_stateful_set, reconcile_set,
}
use kind_music_streaming.Reconciler.Convergence.Updates.{resize_pvcs-Holds}

module _ (c : Client) (law : Lawful c) (key : NamespacedName) (sts desired : StatefulSet)
    (pods : stateful_set_needs_update sts desired ≡ ok false) where
  roll_out-same : (w w' : c.World) → roll_out c sts desired w ≡ (ok tt, w') → w ≡ w'
  unfolding roll_out ◌>>=◌ lift
  roll_out-same w w' run = (pure_ok tt tt w w' (rw pods at run)).1

  update_stateful_set-Holds :
      (storage : StorageSpec) (a b : String) (w w' : c.World)
      → storage_update_policy storage ≢ storage_update_policy_recreate
      → law.view w stateful_set key ≡ some sts
      → update_stateful_set c storage a b sts desired w ≡ (ok tt, w')
      → law.view w' stateful_set key ≡ some sts
  unfolding update_stateful_set
  update_stateful_set-Holds storage a b w w' kept there run =
      elim (Bool-cases (storage_size_changed sts desired)) [
        | inr same ↦ rw (← roll_out-same w w' (rw same at run)) there
        | inl changed ↦
            let resized = rw (changed, resizing) at run in
            let (_, w₁, done, rest) =
              bind_ok (resize_pvcs c a b desired) (λ _. roll_out c sts desired) tt w w' resized in
            let held = (resize_pvcs-Holds c law key (some sts) a b desired).at w there in
            rw (← roll_out-same w₁ w' rest) (rw done at held)
      ]
    where
      resizing : (storage_update_policy storage === storage_update_policy_recreate) ≡ false
      resizing =
          ground (arith, eq_iff (storage_update_policy storage) storage_update_policy_recreate)

  -- On a lawful server that holds at the key a StatefulSet with the pods of the desired one: under
  -- another policy than Recreate, after a successful reconciliation it holds the same one, whatever
  -- the storage size in its claim templates and in those of the desired one.
  pub reconcile_set-keeps :
      (build : Outcome StatefulSet) (storage : StorageSpec) (a b : String) (w w' : c.World)
      → build ≡ ok desired
      → storage_update_policy storage ≢ storage_update_policy_recreate
      → law.view w stateful_set key ≡ some sts
      → reconcile_set c key build storage a b w ≡ (ok tt, w')
      → law.view w' stateful_set key ≡ some sts
  unfolding reconcile_set create_missing
  reconcile_set-keeps build storage a b w w' built kept there run =
      let present_branch : StatefulSet → Exec c.World (Unit {0}) =
        λ x. lift build >>= update_stateful_set c storage a b x in
      elim (handle_ok (c.get stateful_set key) (create_missing c stateful_set build) present_branch
        tt w w' run) [
          | inl (e, w₁, got, rest) ↦ elim (Bool-cases e.is_not_found) [
            | inl missing ↦ absurd (
                Option.none-ne-some sts
                  (sym (law.get_missing stateful_set key w w₁ e got missing) ∙ there))
            | inr other ↦
                absurd
                  (raise_not_ok (record e { is_not_found = false }) tt w₁ w' (rw other at rest))
          ]
          | inr (x, w₁, got, rest) ↦
              let (new, w₂, lifted, updated) =
                bind_ok (lift build) (update_stateful_set c storage a b x) tt w₁ w' rest in
              let (answer, stays) = lift_ok build new w₁ w₂ lifted in
              let found = law.get_found stateful_set key w w₁ x got in
              let unread : law.view w₁ ≡ law.view w = rw got at (law.get_same stateful_set key w) in
              let same_set : x ≡ sts = Option.some-injective x sts (sym found ∙ there) in
              let new_desired : new ≡ desired = ground arith in
              update_stateful_set-Holds storage a b w₂ w' kept (rw (← stays, unread) there)
                (rw (same_set, new_desired) at updated)
        ]

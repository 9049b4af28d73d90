-- ===== src/Reconciler/Ensure.antt =====
-- What the reconcilers of internal/reconciler do alike: create an object that is missing, and
-- bring an existing StatefulSet to the desired one.
use kind_music_streaming.Prelude.{String, ◌===◌, if◌then◌else◌}
use kind_music_streaming.Kube.{NamespacedName, StatefulSet}
use kind_music_streaming.Api.{StorageSpec, storage_update_policy_recreate}
use kind_music_streaming.Exec.{Error, Outcome, Exec, pure, raise, lift, ◌>>=◌, ◌>>◌, handle}
use kind_music_streaming.Platform.{Kind, stateful_set, Obj, Client}
use kind_music_streaming.Reconciler.Storage.{
  storage_update_policy, storage_size_changed, resize_pvcs, recreate_stateful_set_storage,
}
use kind_music_streaming.Reconciler.Compare.{stateful_set_needs_update}

module _ (c : Client) where
  -- After a failed `Get`: create the object if it was not found, else pass the error on.
  unfoldable pub create_missing : (k : Kind) → Outcome (Obj k) → Error → Exec c.World (Unit {0})
  unfolding raise lift ◌>>=◌
  create_missing k build e =
      if e.is_not_found then (do built ← lift build; c.create k built) else raise e

  -- An object that exists is left as it is.
  unfoldable pub ensure : (k : Kind) → NamespacedName → Outcome (Obj k) → Exec c.World (Unit {0})
  unfolding create_missing pure handle
  ensure k key build = handle (c.get k key) (create_missing k build) (λ _. pure tt)

  -- `sts.Spec = desiredSts.Spec` and `Update`, where the two differ.
  unfoldable pub roll_out : StatefulSet → StatefulSet → Exec c.World (Unit {0})
  unfolding stateful_set_needs_update pure lift ◌>>=◌
  roll_out sts desired = do
    differs ← lift (stateful_set_needs_update sts desired)
    if differs
        then (do _ ← c.update stateful_set (record sts { spec = desired.spec }); pure tt)
        else pure tt

  -- An existing StatefulSet: its storage first, then its pods.
  unfoldable pub update_stateful_set :
      StorageSpec → String → String → StatefulSet → StatefulSet → Exec c.World (Unit {0})
  unfolding roll_out resize_pvcs recreate_stateful_set_storage storage_size_changed
      storage_update_policy ◌>>=◌
  update_stateful_set storage claim_name app_name sts desired =
      if storage_size_changed sts desired
      then (if storage_update_policy storage === storage_update_policy_recreate
          then recreate_stateful_set_storage c sts claim_name app_name
          else (resize_pvcs c claim_name app_name desired >> roll_out sts desired))
      else roll_out sts desired

  unfoldable pub reconcile_set :
      NamespacedName → Outcome StatefulSet → StorageSpec → String → String → Exec c.World (Unit {0})
  unfolding create_missing update_stateful_set lift ◌>>=◌ handle
  reconcile_set key build storage claim_name app_name =
      handle (c.get stateful_set key) (create_missing stateful_set build)
        λ sts. do desired ← lift build; update_stateful_set storage claim_name app_name sts desired

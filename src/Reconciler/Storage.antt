-- ===== src/Reconciler/Storage.antt =====
-- internal/reconciler/storage.go: changes of the storage size.
pub mod Deletion
pub mod Prefix
pub mod Growth
use kind_music_streaming.Prelude.{
  String, ◌<>◌, Bool, false, not, Option, none, some, List, [], ◌∷◌, filter, lookup, insert, ◌===◌,
  starts_with, if◌then◌else◌,
}
use kind_music_streaming.Prelude.Int.{eqb_ℤ, ltb_ℤ}
use kind_music_streaming.Kube.{Quantity, PersistentVolumeClaim, StatefulSet}
use kind_music_streaming.Api.{StorageUpdatePolicy, StorageSpec, storage_update_policy_resize}
use kind_music_streaming.Exec.{Exec, pure, ◌>>=◌, ◌>>◌}
use kind_music_streaming.Platform.{stateful_set, claim, Client}

unfoldable pub storage_update_policy : StorageSpec → StorageUpdatePolicy
storage_update_policy storage =
    if storage.update_policy === "" then storage_update_policy_resize else storage.update_policy

first_request : List PersistentVolumeClaim → Option Quantity
first_request [] = none
first_request (template ∷ _) = lookup "storage" template.requests

-- The size that the first claim template asks for.
unfoldable pub storage_request_from_stateful_set : StatefulSet → Option Quantity
unfolding first_request lookup
storage_request_from_stateful_set sts = first_request sts.spec.volume_claim_templates

sizes_differ : Option Quantity → Option Quantity → Bool
sizes_differ (some current) (some desired) = not (eqb_ℤ current.thousandths desired.thousandths)
sizes_differ _ _ = false

unfoldable pub storage_size_changed : StatefulSet → StatefulSet → Bool
unfolding sizes_differ storage_request_from_stateful_set
storage_size_changed current desired =
    sizes_differ (storage_request_from_stateful_set current)
      (storage_request_from_stateful_set desired)

-- The first part of the names of the claims of an application's pods.
unfoldable pub claim_prefix : String → String → String
claim_prefix claim_name app_name = claim_name <> "-" <> app_name <> "-"

unfoldable pub has_prefix : String → PersistentVolumeClaim → Bool
has_prefix prefix pvc = starts_with pvc.metadata.name prefix

module _ (c : Client) where
  unfoldable pub list_pvcs_by_prefix :
      String → String → String → Exec c.World (List PersistentVolumeClaim)
  unfolding filter claim_prefix has_prefix pure ◌>>=◌
  list_pvcs_by_prefix claim_name app_name namespace = do
    items ← c.list namespace
    pure (filter (has_prefix (claim_prefix claim_name app_name)) items)

  -- A claim with no requested size, or with one that is large enough, is passed over.
  unfoldable pub resize_from :
      Quantity → PersistentVolumeClaim → Option Quantity → Exec c.World (Unit {0})
  unfolding insert pure ◌>>=◌
  resize_from desired pvc none = pure tt
  resize_from desired pvc (some current) =
      if ltb_ℤ current.thousandths desired.thousandths
      then (do
        _ ← c.update claim (record pvc { requests = insert "storage" desired pvc.requests })
        pure tt)
      else pure tt

  -- One round of the loop of `resizePVCs`.
  unfoldable pub resize_pvc : Quantity → PersistentVolumeClaim → Exec c.World (Unit {0})
  unfolding lookup resize_from
  resize_pvc desired pvc = resize_from desired pvc (lookup "storage" pvc.requests)

  unfoldable pub resize_each : Quantity → List PersistentVolumeClaim → Exec c.World (Unit {0})
  unfolding resize_pvc pure ◌>>=◌
  resize_each desired [] = pure tt
  resize_each desired (pvc ∷ pvcs) = resize_pvc desired pvc >> resize_each desired pvcs

  unfoldable pub resize_to : String → String → String → Option Quantity → Exec c.World (Unit {0})
  unfolding resize_each list_pvcs_by_prefix pure ◌>>=◌
  resize_to claim_name app_name namespace none = pure tt
  resize_to claim_name app_name namespace (some size) = do
    pvcs ← list_pvcs_by_prefix claim_name app_name namespace
    resize_each size pvcs

  unfoldable pub resize_pvcs : String → String → StatefulSet → Exec c.World (Unit {0})
  unfolding resize_to storage_request_from_stateful_set
  resize_pvcs claim_name app_name desired =
      resize_to claim_name app_name desired.metadata.namespace
        (storage_request_from_stateful_set desired)

  unfoldable pub delete_each : List PersistentVolumeClaim → Exec c.World (Unit {0})
  unfolding pure ◌>>=◌
  delete_each [] = pure tt
  delete_each (pvc ∷ pvcs) = c.delete claim pvc >> delete_each pvcs

  unfoldable pub delete_pvcs_by_prefix : String → String → String → Exec c.World (Unit {0})
  unfolding delete_each list_pvcs_by_prefix ◌>>=◌
  delete_pvcs_by_prefix claim_name app_name namespace = do
    pvcs ← list_pvcs_by_prefix claim_name app_name namespace
    delete_each pvcs

  unfoldable pub recreate_stateful_set_storage :
      StatefulSet → String → String → Exec c.World (Unit {0})
  unfolding delete_pvcs_by_prefix ◌>>=◌
  recreate_stateful_set_storage sts claim_name app_name = do
    c.delete stateful_set sts
    delete_pvcs_by_prefix claim_name app_name sts.metadata.namespace

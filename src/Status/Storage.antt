-- ===== src/Status/Storage.antt =====
-- internal/status/manager.go: `updateStorageWarnings` and what it calls.
pub mod Warnings
use Prim.Native.String.{len, slice}
use kind_music_streaming.Prelude.{
  String, ◌<>◌, Bool, false, not, ◌&&◌, ◌||◌, Option, none, some, List, [], ◌∷◌, filter, lookup,
  leb, ◌===◌, if◌then◌else◌,
}
use kind_music_streaming.Prelude.Int.{ltb_ℤ}
use kind_music_streaming.Kube.{Quantity, PersistentVolumeClaim, StatefulSet}
use kind_music_streaming.Api.{MusicService}
use kind_music_streaming.Exec.{Exec, pure, ◌>>=◌, handle}
use kind_music_streaming.Platform.{Library, Client}
use kind_music_streaming.Status.Conditions.{with_condition}

first_request : List PersistentVolumeClaim → Option Quantity
first_request [] = none
first_request (template ∷ _) = lookup "storage" template.requests

unfoldable pub storage_request_from_stateful_set : StatefulSet → Option Quantity
unfolding first_request lookup
storage_request_from_stateful_set sts = first_request sts.spec.volume_claim_templates

-- `len(name) >= len(prefix) && name[:len(prefix)] == prefix`
unfoldable pub begins_with : String → PersistentVolumeClaim → Bool
begins_with prefix pvc =
    let name = pvc.metadata.name in
    leb (len prefix) (len name) && slice name 0 (len prefix) === prefix

is_below : Quantity → Quantity → Bool
is_below desired current = ltb_ℤ desired.thousandths current.thousandths

desired_below : Library → Quantity → String → Bool
unfolding is_below
desired_below lib current desired_size =
    not (desired_size === "") && elim (lib.parse_quantity desired_size) [
      | none ↦ false
      | some desired ↦ is_below desired current
    ]

-- The requested size is a quantity below the current one.
unfoldable pub shrinks : Library → StatefulSet → String → Bool
unfolding desired_below storage_request_from_stateful_set
shrinks lib sts desired_size = elim (storage_request_from_stateful_set sts) [
  | none ↦ false
  | some current ↦ desired_below lib current desired_size
]

unfoldable pub any_unbound : List PersistentVolumeClaim → Bool
any_unbound [] = false
any_unbound (pvc ∷ pvcs) = not (pvc.phase === "Bound") || any_unbound pvcs

module _ (c : Client) where
  unfoldable pub list_pvcs_by_prefix :
      String → String → String → Exec c.World (List PersistentVolumeClaim)
  unfolding filter begins_with pure ◌>>=◌
  list_pvcs_by_prefix claim_name app_name namespace = do
    items ← c.list namespace
    let prefix = claim_name <> "-" <> app_name <> "-"
    pure (filter (begins_with prefix) items)

  -- `setCondition` reads the clock.
  unfoldable pub set_condition_now :
      MusicService → String → String → String → String → Exec c.World MusicService
  unfolding with_condition pure ◌>>=◌
  set_condition_now ms type status reason message = do
    now ← c.now
    pure (with_condition now ms type status reason message)

  unfoldable pub storage_healthy : MusicService → String → Exec c.World MusicService
  unfolding set_condition_now
  storage_healthy ms type =
      set_condition_now ms type "True" "StorageHealthy"
        "Storage requests are within expected bounds"

module _ (lib : Library) (c : Client) where
  -- A failed listing of the claims counts as one with none unbound.
  unfoldable pub update_storage_warnings :
      MusicService → StatefulSet → String → String → String → String → Exec c.World MusicService
  unfolding shrinks any_unbound list_pvcs_by_prefix set_condition_now storage_healthy handle
  update_storage_warnings ms sts claim_name app_name desired_size type =
      if shrinks lib sts desired_size
      then set_condition_now c ms type "False" "ShrinkNotSupported"
          "Requested storage size is smaller than current PVC size"
      else handle (list_pvcs_by_prefix c claim_name app_name ms.metadata.namespace)
          (λ _. storage_healthy c ms type)
          λ pvcs.
            if any_unbound pvcs
            then set_condition_now c ms type "False" "PVCNotBound"
                "One or more PVCs are not bound yet"
            else storage_healthy c ms type

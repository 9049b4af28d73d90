-- ===== src/Tests/Sizes.antt =====
-- A storage size that is raised for a StatefulSet that is there.
use kind_music_streaming.Prelude.{
  ◌≡◌, ◌≢◌, refl, true, false, some, [], ◌∷◌, arith, eq_iff, deep_equal, decimal,
}
use native.Mathlib.Decide.{ℕ_discrete}
use kind_music_streaming.Kube.{
  StatefulSet, containers_discrete, volumes_discrete, resources_discrete, env_discrete,
  mounts_discrete, ports_discrete, probe_discrete,
}
use kind_music_streaming.Api.{storage_update_policy_recreate}
use kind_music_streaming.Exec.{ok}
use kind_music_streaming.Platform.{stateful_set}
use kind_music_streaming.Builder.{build_app_stateful_set}
use kind_music_streaming.Reconciler.App
use kind_music_streaming.Reconciler.Storage.{storage_update_policy, storage_size_changed}
use kind_music_streaming.Reconciler.Compare.{stateful_set_needs_update, container_differs}
use kind_music_streaming.Reconciler.Ensure.{reconcile_set}
use kind_music_streaming.Reconciler.Convergence.{reconcile_set-keeps}
use kind_music_streaming.Tests.Memory.{Cluster, get, update, find, list_claims, memory}
use kind_music_streaming.Tests.Server.{memory-Lawful}
use kind_music_streaming.Tests.Built.{built, app_set, app_set_built}
use kind_music_streaming.Tests.Examples.{library, radio, storage, cluster}

not_recreated : storage_update_policy radio.spec.storage ≢ storage_update_policy_recreate
unfolding storage_update_policy
not_recreated e =
    ground (arith, eq_iff (storage_update_policy radio.spec.storage) storage_update_policy_recreate)

-- The StatefulSet of "radio" with 5Gi, on the server, and 10Gi in the spec.
unfoldable pub small_set : StatefulSet
unfolding build_app_stateful_set
small_set = built (
    build_app_stateful_set library
      (record radio { spec = record radio.spec { storage = record storage { size = "5Gi" } } }))

unfoldable small : Cluster
small = record cluster { sets = small_set ∷ [] }

same_pods : stateful_set_needs_update small_set app_set ≡ ok false
unfolding small_set app_set stateful_set_needs_update deep_equal containers_discrete
    volumes_discrete container_differs resources_discrete env_discrete decimal mounts_discrete
    ports_discrete ℕ_discrete probe_discrete
same_pods = refl

sizes_differ : storage_size_changed small_set app_set ≡ true
unfolding small_set app_set storage_size_changed
sizes_differ = refl

unfoldable resized_small : Cluster
unfolding reconcile_set
resized_small =
    (reconcile_set memory (App.app_key radio) (build_app_stateful_set library radio)
      radio.spec.storage "music-data" "radio" small).1

resized_small_run :
    reconcile_set memory
      (App.app_key radio)
      (build_app_stateful_set library radio)
      radio.spec.storage
      "music-data"
      "radio"
      small
    ≡ (ok tt, resized_small)
unfolding resized_small small small_set App.app_key get update list_claims build_app_stateful_set
    deep_equal containers_discrete volumes_discrete container_differs resources_discrete
    env_discrete decimal mounts_discrete ports_discrete ℕ_discrete probe_discrete
resized_small_run = refl

small_read : memory.get stateful_set (App.app_key radio) small ≡ (ok small_set, small)
unfolding get find small small_set App.app_key build_app_stateful_set
small_read = refl

small_there : memory-Lawful.view small stateful_set (App.app_key radio) ≡ some small_set
small_there =
    memory-Lawful.get_found stateful_set (App.app_key radio) small small small_set small_read

reconcile_set-keeps_example :
    memory-Lawful.view resized_small stateful_set (App.app_key radio) ≡ some small_set
reconcile_set-keeps_example =
    reconcile_set-keeps memory memory-Lawful (App.app_key radio) small_set app_set same_pods
      (build_app_stateful_set library radio) radio.spec.storage "music-data" "radio" small
      resized_small app_set_built not_recreated small_there resized_small_run

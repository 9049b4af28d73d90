-- ===== src/Tests/Outcomes.antt =====
-- What a round and a change of the storage achieve, at concrete inputs.
use kind_music_streaming.Prelude.{
  ℕ, ◌+◌, ◌≤◌, ◌≡◌, refl, inl, inr, true, some, All, lookup, arith, eq_iff,
}
use kind_music_streaming.Prelude.Int.{pos}
use kind_music_streaming.Kube.{StatefulSet, PersistentVolumeClaim}
use kind_music_streaming.Api.{storage_update_policy_recreate}
use kind_music_streaming.Exec.{ok}
use kind_music_streaming.Platform.{claim}
use kind_music_streaming.Platform.Lawful.{key_of}
use kind_music_streaming.Builder.{
  build_app_service, build_app_stateful_set, build_database_galera_stateful_set,
}
use kind_music_streaming.Builder.Total.{build_database_galera_stateful_set-bounded}
use kind_music_streaming.Reconciler.App
use kind_music_streaming.Reconciler.Storage.{
  storage_update_policy, resize_pvcs, has_prefix, claim_prefix, storage_request_from_stateful_set,
}
use kind_music_streaming.Reconciler.Storage.Growth.{Grown, resize_pvcs-Grown}
use kind_music_streaming.Reconciler.Database.{database_storage_spec}
use kind_music_streaming.Reconciler.Authority.{Recreates}
use kind_music_streaming.Controller.{reconcile_objects, finish}
use kind_music_streaming.Controller.Rounds.{steps, last_subject, Succeed, none_left, next}
use kind_music_streaming.Controller.Rounds.Inventory.{inventory}
use kind_music_streaming.Controller.Rounds.Inventory.Objects.{Holds}
use kind_music_streaming.Controller.Rounds.Inventory.Complete.{reconcile_objects-inventory}
use kind_music_streaming.Tests.Memory.{Cluster, get, create, update, find, list_claims, memory}
use kind_music_streaming.Tests.Server.{memory-Lawful}
use kind_music_streaming.Tests.Examples.{
  library, radio, plain, database, cluster, gibibytes_5, gibibytes_10, volume_claim,
}
use kind_music_streaming.Tests.Built.{app_set}
use kind_music_streaming.Tests.Steady.{radio-IsBuildable}

build_database_galera_stateful_set-bounded_example :
    (sts : StatefulSet) × (build_database_galera_stateful_set library radio ≡ ok sts)
    × (n : ℕ) × (database.replicas ≡ pos n)
    × (sts.spec.replicas ≡ some (pos (n + 1)))
    × (1 ≤ n + 1)
    × (n + 1 ≤ 11)
build_database_galera_stateful_set-bounded_example =
    build_database_galera_stateful_set-bounded library radio radio-IsBuildable database refl

-- The storage of "plain" is resized, never recreated.
plain_resized : Recreates plain → ⊥
unfolding storage_update_policy database_storage_spec
plain_resized (inl e) =
    ground (arith, eq_iff (storage_update_policy plain.spec.storage) storage_update_policy_recreate)
plain_resized (inr e) = ground (
  arith,
  eq_iff (storage_update_policy (database_storage_spec plain)) storage_update_policy_recreate,
)

-- A server that has claims only, and what the steps for "plain" make of it.
unfoldable with_service : Cluster
unfolding App.reconcile_service
with_service = (App.reconcile_service library memory plain cluster).1

unfoldable with_set : Cluster
unfolding App.reconcile_stateful_set
with_set = (App.reconcile_stateful_set library memory plain with_service).1

service_made : App.reconcile_service library memory plain cluster ≡ (ok tt, with_service)
unfolding App.reconcile_service with_service get create App.app_key build_app_service
service_made = refl

set_made : App.reconcile_stateful_set library memory plain with_service ≡ (ok tt, with_set)
unfolding with_set with_service get create build_app_stateful_set
set_made = refl

autoscaler_gone : App.reconcile_autoscaler library memory plain with_set ≡ (ok tt, with_set)
unfolding App.reconcile_autoscaler with_set with_service get create build_app_stateful_set
autoscaler_gone = refl

plain_succeeds : Succeed library memory (steps library memory plain) cluster with_set
unfolding steps
plain_succeeds = next service_made (next set_made (next autoscaler_gone none_left))

reconcile_objects-inventory_example :
    (reconcile_objects library memory plain cluster
      ≡ finish library memory (last_subject library memory plain) with_set)
    × All (Holds memory memory-Lawful with_set) (inventory plain)
reconcile_objects-inventory_example =
    reconcile_objects-inventory library memory memory-Lawful plain cluster with_set plain_resized
      plain_succeeds

-- The claim of "radio" has 5Gi, and is to have 10Gi.
abbrev own_claim : PersistentVolumeClaim
own_claim = volume_claim "music-data-radio-0"

own_has_prefix : has_prefix (claim_prefix "music-data" "radio") own_claim ≡ true
unfolding has_prefix claim_prefix
own_has_prefix = refl

listed : memory.list app_set.metadata.namespace cluster ≡ (ok cluster.claims, cluster)
unfolding list_claims app_set build_app_stateful_set
listed = refl

own_read : memory.get claim (key_of claim own_claim) cluster ≡ (ok own_claim, cluster)
unfolding get find
own_read = refl

own_shown : memory-Lawful.view cluster claim (key_of claim own_claim) ≡ some own_claim
own_shown =
    memory-Lawful.get_found claim (key_of claim own_claim) cluster cluster own_claim own_read

ten_wanted : storage_request_from_stateful_set app_set ≡ some gibibytes_10
unfolding storage_request_from_stateful_set app_set build_app_stateful_set
ten_wanted = refl

unfoldable grown : Cluster
unfolding resize_pvcs
grown = (resize_pvcs memory "music-data" "radio" app_set cluster).1

grown_run : resize_pvcs memory "music-data" "radio" app_set cluster ≡ (ok tt, grown)
unfolding grown resize_pvcs update list_claims app_set build_app_stateful_set
grown_run = refl

own_asked : lookup "storage" own_claim.requests ≡ some gibibytes_5
unfolding lookup
own_asked = refl

resize_pvcs-Grown_example : Grown memory memory-Lawful gibibytes_10 grown (key_of claim own_claim)
resize_pvcs-Grown_example =
    resize_pvcs-Grown memory memory-Lawful "music-data" "radio" app_set gibibytes_10 gibibytes_5
      cluster.claims own_claim cluster cluster grown ten_wanted listed own_shown (inl refl)
      own_has_prefix own_asked grown_run

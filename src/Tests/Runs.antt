-- ===== src/Tests/Runs.antt =====
-- The theorems on the reconcilers, for runs on the server in memory.
use kind_music_streaming.Prelude.{
  ℕ, String, ◌<>◌, ◌===◌, ◌≡◌, ◌≢◌, ◌*◌, refl, true, false, List, [], ◌∷◌, In, length, codes, Map,
  inl, inr, arith, eq_iff,
}
use kind_music_streaming.Kube.{NamespacedName, PersistentVolumeClaim}
use kind_music_streaming.Api.{storage_update_policy_recreate}
use kind_music_streaming.Exec.{Outcome, ok}
use kind_music_streaming.Platform.{claim}
use kind_music_streaming.Platform.Lawful.{IsLeaving, key_of}
use kind_music_streaming.Builder.{build_app_stateful_set}
use kind_music_streaming.Reconciler.Storage.{
  storage_update_policy, claim_prefix, has_prefix, delete_pvcs_by_prefix,
}
use kind_music_streaming.Reconciler.Storage.Deletion.{
  delete_pvcs_by_prefix-leaves, delete_pvcs_by_prefix-frame, delete_pvcs_by_prefix-foreign,
}
use kind_music_streaming.Reconciler.App.{app_key, reconcile_stateful_set}
use kind_music_streaming.Reconciler.Convergence.{Settled, reconcile_stateful_set-Settled}
use kind_music_streaming.Reconciler.Secret.{complete_data, generate_password}
use kind_music_streaming.Reconciler.Secret.Completion.{Completes, complete_data-Completes}
use kind_music_streaming.Reconciler.Secret.Password.{decode_string, generate_password-decode}
use kind_music_streaming.Tests.Memory.{Cluster, get, create, delete, list_claims, memory}
use kind_music_streaming.Tests.Server.{memory-Lawful}
use kind_music_streaming.Tests.Built.{app_set, app_set_built}
use kind_music_streaming.Tests.Examples.{library, radio, cluster, volume_claim}

pub not_recreated : storage_update_policy radio.spec.storage ≢ storage_update_policy_recreate
unfolding storage_update_policy
not_recreated e =
    ground (arith, eq_iff (storage_update_policy radio.spec.storage) storage_update_policy_recreate)

unfoldable stored_set : Cluster
unfolding reconcile_stateful_set
stored_set = (reconcile_stateful_set library memory radio cluster).1

stored_set_run : reconcile_stateful_set library memory radio cluster ≡ (ok tt, stored_set)
unfolding stored_set get create build_app_stateful_set
stored_set_run = refl

reconcile_stateful_set-Settled_example :
    Settled memory memory-Lawful stored_set (app_key radio) app_set
reconcile_stateful_set-Settled_example =
    reconcile_stateful_set-Settled memory memory-Lawful library radio app_set cluster stored_set
      app_set_built not_recreated stored_set_run

-- The claims of "radio" are deleted, and with them those of "radio-live".
unfoldable deleted : Cluster
unfolding delete_pvcs_by_prefix
deleted = (delete_pvcs_by_prefix memory "music-data" "radio" "music" cluster).1

deleted_run : delete_pvcs_by_prefix memory "music-data" "radio" "music" cluster ≡ (ok tt, deleted)
unfolding deleted delete list_claims
deleted_run = refl

listed : memory.list "music" cluster ≡ (ok cluster.claims, cluster)
unfolding list_claims
listed = refl

abbrev own_claim : PersistentVolumeClaim
own_claim = volume_claim "music-data-radio-0"

abbrev foreign_claim : PersistentVolumeClaim
foreign_claim = volume_claim "music-data-radio-live-0"

own_has_prefix : has_prefix (claim_prefix "music-data" "radio") own_claim ≡ true
unfolding has_prefix claim_prefix
own_has_prefix = refl

delete_pvcs_by_prefix-leaves_example :
    IsLeaving claim (memory-Lawful.view deleted claim (key_of claim own_claim))
delete_pvcs_by_prefix-leaves_example =
    delete_pvcs_by_prefix-leaves memory memory-Lawful "music-data" "radio" "music" cluster cluster
      cluster.claims listed deleted own_claim deleted_run (inl refl) own_has_prefix

foreign_name :
    foreign_claim.metadata.name ≡ claim_prefix "music-data" ("radio" <> "-" <> "live") <> "0"
unfolding claim_prefix
foreign_name = refl

delete_pvcs_by_prefix-foreign_example :
    IsLeaving claim (memory-Lawful.view deleted claim (key_of claim foreign_claim))
delete_pvcs_by_prefix-foreign_example =
    delete_pvcs_by_prefix-foreign memory memory-Lawful "music-data" "radio" "music" cluster cluster
      cluster.claims listed deleted foreign_claim "live" "0" deleted_run (inr (inl refl))
      foreign_name

abbrev database_claim_key : NamespacedName
database_claim_key = record { name = "db-data-radio-db-master-0"; namespace = "music" }

keys_differ :
    (s : String) (pvc : PersistentVolumeClaim)
    → (database_claim_key.name === s) ≡ false
    → pvc ≡ volume_claim s
    → database_claim_key ≢ key_of claim pvc
keys_differ s pvc other here e = ground (arith, eq_iff database_claim_key.name s)

other_key :
    (pvc : PersistentVolumeClaim)
    → In pvc cluster.claims
    → has_prefix (claim_prefix "music-data" "radio") pvc ≡ true
    → database_claim_key ≢ key_of claim pvc
other_key pvc (inl here) p e = keys_differ "music-data-radio-0" pvc refl here e
other_key pvc (inr (inl here)) p e = keys_differ "music-data-radio-live-0" pvc refl here e
other_key pvc (inr (inr nowhere)) p e = absurd nowhere

delete_pvcs_by_prefix-frame_example :
    memory-Lawful.view
      (delete_pvcs_by_prefix memory "music-data" "radio" "music" cluster).1
      claim
      database_claim_key
    ≡ memory-Lawful.view cluster claim database_claim_key
delete_pvcs_by_prefix-frame_example =
    delete_pvcs_by_prefix-frame memory memory-Lawful "music-data" "radio" "music" cluster cluster
      cluster.claims listed database_claim_key other_key

-- A secret with a user of its own and no password.
abbrev half : Map (List ℕ)
half = ("username", codes "me") ∷ []

unfoldable filled : Outcome (Map (List ℕ)) × Cluster
unfolding complete_data
filled = complete_data memory half cluster

abbrev contents_of : Outcome (Map (List ℕ)) → Map (List ℕ)
contents_of (ok m) = m
contents_of _ = []

filled_run : complete_data memory half cluster ≡ (ok (contents_of filled.0), filled.1)
unfolding filled
filled_run = refl

complete_data-Completes_example : Completes half (contents_of filled.0)
complete_data-Completes_example =
    complete_data-Completes memory half (contents_of filled.0) cluster filled.1 filled_run

abbrev two_bytes : List ℕ
two_bytes = 171 ∷ 171 ∷ []

abbrev four_digits : List ℕ
four_digits = codes "abab"

drawn : generate_password memory 2 cluster ≡ (ok four_digits, cluster)
unfolding generate_password
drawn = refl

generate_password-decode_example :
    (length four_digits ≡ 2 * length two_bytes) × (decode_string four_digits ≡ two_bytes)
generate_password-decode_example =
    generate_password-decode memory 2 two_bytes four_digits cluster cluster cluster refl
      (ground arith, (ground arith, tt)) drawn

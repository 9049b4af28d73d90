-- ===== src/Builder/Total.antt =====
-- The specs for which every builder returns.
use kind_music_streaming.Prelude.{ap, ◌∙◌, ◌<>◌, ℕ, ◌+◌, ◌≤◌, String, ◌≡◌, refl, some, arith}
use kind_music_streaming.Prelude.Int.{ℤ, pos, succ_int32}
use kind_music_streaming.Kube.{StatefulSet}
use kind_music_streaming.Api.{DatabaseSpec, MusicService}
use kind_music_streaming.Exec.{ok}
use kind_music_streaming.Exec.Ensures.{Returns, value, Ends-bind, weaken-Ends, Returns-ok}
use kind_music_streaming.Platform.{Library}
use kind_music_streaming.Builder.Common.Buildable.{
  IsBuildable, must_parse-Returns, build_database_config-Returns,
}
use kind_music_streaming.Builder.Scripts.{build_galera_config_script}
use kind_music_streaming.Builder.App.{build_app_stateful_set}
use kind_music_streaming.Builder.Database.{
  build_database_master_stateful_set, build_database_replica_stateful_set,
}
use kind_music_streaming.Builder.Galera.{build_database_galera_stateful_set}

-- A StatefulSet that says how many replicas it wants.
abbrev pub HasReplicas : StatefulSet → Type 0
HasReplicas sts = (n : ℤ) × (sts.spec.replicas ≡ some n)

succ_int32-pos : (n : ℕ) → n ≤ 10 → succ_int32 (pos n) ≡ pos (n + 1)
unfolding succ_int32
succ_int32-pos n few = ground arith

-- One node more than the replicas: no overflow, and a list of addresses.
build_galera_config_script-Returns :
    (sts_name namespace : String) (replicas : ℤ)
    → (n : ℕ) × (replicas ≡ pos n) × (n ≤ 10)
    → Returns (λ _. Unit {0}) (build_galera_config_script sts_name namespace (succ_int32 replicas))
unfolding build_galera_config_script succ_int32
build_galera_config_script-Returns sts_name namespace replicas (n, e, few) =
    rw (e, succ_int32-pos n few) (value tt)

module _ (lib : Library) (ms : MusicService) (b : IsBuildable lib ms.spec) where
  pub build_app_stateful_set-Returns : Returns HasReplicas (build_app_stateful_set lib ms)
  unfolding build_app_stateful_set
  build_app_stateful_set-Returns =
      Ends-bind (must_parse-Returns lib ms.spec.storage.size b.size)
        (λ q parsed. value (ms.spec.replicas, refl))

  pub build_database_master_stateful_set-Returns :
      Returns HasReplicas (build_database_master_stateful_set lib ms)
  unfolding build_database_master_stateful_set
  build_database_master_stateful_set-Returns =
      Ends-bind (build_database_config-Returns lib ms b) (λ config counted. value (pos 1, refl))

  pub build_database_replica_stateful_set-Returns :
      Returns HasReplicas (build_database_replica_stateful_set lib ms)
  unfolding build_database_replica_stateful_set
  build_database_replica_stateful_set-Returns =
      Ends-bind (build_database_config-Returns lib ms b)
        (λ config counted. value (config.replicas, refl))

  galera_stateful_set-Returns :
      Returns
        (λ sts.
          (n : ℕ) × (sts.spec.replicas ≡ some (pos (n + 1)))
          × (n ≤ 10)
          × ((db : DatabaseSpec) → ms.spec.database ≡ some db → db.replicas ≡ pos n))
        (build_database_galera_stateful_set lib ms)
  unfolding build_database_galera_stateful_set
  galera_stateful_set-Returns =
      Ends-bind (build_database_config-Returns lib ms b) (λ config (n, e, few, same).
        Ends-bind
          (build_galera_config_script-Returns (ms.metadata.name <> "-db-galera")
            ms.metadata.namespace config.replicas (n, e, few))
          (λ script made. value (n, ap some (ap succ_int32 e ∙ succ_int32-pos n few), few, same)))

  pub build_database_galera_stateful_set-Returns :
      Returns HasReplicas (build_database_galera_stateful_set lib ms)
  build_database_galera_stateful_set-Returns =
      weaken-Ends (λ sts (n, e, _, _). (pos (n + 1), e)) galera_stateful_set-Returns

  -- Where the sizes of the spec and "10Gi" are quantities, and its database has from 0 to 10
  -- replicas, the StatefulSet of the Galera cluster can be built, with one node more than the
  -- database has replicas: from 1 to 11, without an overflow.
  pub build_database_galera_stateful_set-bounded :
      (db : DatabaseSpec)
      → ms.spec.database ≡ some db
      → (sts : StatefulSet) × (build_database_galera_stateful_set lib ms ≡ ok sts)
        × (n : ℕ) × (db.replicas ≡ pos n)
        × (sts.spec.replicas ≡ some (pos (n + 1)))
        × (1 ≤ n + 1)
        × (n + 1 ≤ 11)
  build_database_galera_stateful_set-bounded db given =
      let (sts, built, (n, nodes, few, same)) = Returns-ok galera_stateful_set-Returns in
      (sts, built, n, same db given, nodes, omega arith, omega arith)

-- ===== src/Tests/Built.antt =====
-- The theorems on built objects, for one MusicService.
use kind_music_streaming.Prelude.{
  Bool, ℕ, String, ◌===◌, ◌<◌, ◌≡◌, ◌↔◌, refl, true, false, none, some, List, [], length, In,
  if◌then◌else◌, lookup,
}
use kind_music_streaming.Prelude.Int.{ℤ, pos}
use kind_music_streaming.Kube.{StatefulSet, Service, HorizontalPodAutoscaler}
use kind_music_streaming.Exec.{Outcome, ok, panic}
use kind_music_streaming.Builder.{
  build_app_stateful_set, build_database_master_stateful_set, build_database_replica_stateful_set,
  build_database_galera_stateful_set, build_app_service, build_database_master_service,
  build_database_read_service, build_database_galera_service, build_database_galera_primary_service,
  build_database_galera_read_service, scale, build_autoscaler, build_database_config,
  galera_members, member,
}
use kind_music_streaming.Builder.Routing.{reaches, services-Reach}
use kind_music_streaming.Builder.Mounts.{resolves, built_sets-resolve}
use kind_music_streaming.Builder.Members.{galera_members_complete}
use kind_music_streaming.Builder.Config.{build_app_stateful_set-panic, build_database_config-panic}
use kind_music_streaming.Reconciler.Compare.{stateful_set_needs_update, autoscaler_needs_update}
use kind_music_streaming.Reconciler.Compare.Agreement.{PodsAgree, stateful_set_needs_update_iff}
use kind_music_streaming.Reconciler.Compare.Metrics.{
  MetricsAgree, metrics_asked, autoscaler_needs_update_built,
}
use kind_music_streaming.Provider.{providers, get_provider, register_provider, mysql_provider}
use kind_music_streaming.Provider.Registry.{get_provider-register_provider}
use kind_music_streaming.Tests.Examples.{
  meta, library, radio, autoscaling, database, storage, gibibytes_10,
}

abbrev pub no_set : StatefulSet
no_set = record {
  metadata = meta "none";
  spec = record {
    replicas = none;
    service_name = "";
    match_labels = [];
    template = record {
      labels = [];
      spec = record { init_containers = []; containers = []; volumes = [] };
    };
    volume_claim_templates = [];
  };
  ready_replicas = pos 0;
}

abbrev pub built : Outcome StatefulSet → StatefulSet
built (ok s) = s
built _ = no_set

unfoldable pub app_set : StatefulSet
unfolding build_app_stateful_set
app_set = built (build_app_stateful_set library radio)

unfoldable pub master_set : StatefulSet
unfolding build_database_master_stateful_set
master_set = built (build_database_master_stateful_set library radio)

unfoldable pub replica_set : StatefulSet
unfolding build_database_replica_stateful_set
replica_set = built (build_database_replica_stateful_set library radio)

unfoldable galera_set : StatefulSet
unfolding build_database_galera_stateful_set
galera_set = built (build_database_galera_stateful_set library radio)

pub app_set_built : build_app_stateful_set library radio ≡ ok app_set
unfolding app_set
app_set_built = refl

pub master_set_built : build_database_master_stateful_set library radio ≡ ok master_set
unfolding master_set
master_set_built = refl

pub replica_set_built : build_database_replica_stateful_set library radio ≡ ok replica_set
unfolding replica_set
replica_set_built = refl

galera_set_built : build_database_galera_stateful_set library radio ≡ ok galera_set
unfolding galera_set
galera_set_built = refl

built_sets-resolve_example :
    (resolves app_set ≡ true)
    × (resolves master_set ≡ true)
    × (resolves replica_set ≡ true)
    × (resolves galera_set ≡ true)
built_sets-resolve_example =
    built_sets-resolve library radio app_set master_set replica_set galera_set app_set_built
      master_set_built replica_set_built galera_set_built

abbrev Reach : Service → Bool → Bool → Bool → Bool → Type 0
Reach s p q r t =
    (reaches s app_set ≡ p)
    × (reaches s master_set ≡ q)
    × (reaches s replica_set ≡ r)
    × (reaches s galera_set ≡ t)

services-Reach_example :
    let same = radio.metadata.name === radio.metadata.name in
    Reach (build_app_service library radio) same false false false
    × Reach (build_database_master_service library radio) false same false false
    × Reach (build_database_read_service library radio) false false same false
    × Reach (build_database_galera_service library radio) false false false same
    × Reach (build_database_galera_primary_service library radio) false false false same
    × Reach (build_database_galera_read_service library radio) false false false same
services-Reach_example =
    services-Reach library radio radio app_set master_set replica_set galera_set app_set_built
      master_set_built replica_set_built galera_set_built

galera_members_complete_example :
    (members : List String) × (galera_members "radio-db-galera" "music" (pos 3) ≡ ok members)
    × (length members ≡ 3)
    × ((j : ℕ) → j < 3 → In (member "radio-db-galera" "music" j) members)
galera_members_complete_example = galera_members_complete "radio-db-galera" "music" 3

build_app_stateful_set-panic_example :
    (build_app_stateful_set library radio ≡ panic)
    ↔ (library.parse_quantity radio.spec.storage.size ≡ none)
build_app_stateful_set-panic_example = build_app_stateful_set-panic library radio

build_database_config-panic_example :
    (build_database_config library radio ≡ panic) ↔ (library.parse_quantity storage.size ≡ none)
build_database_config-panic_example =
    build_database_config-panic library radio database storage gibibytes_10 refl refl refl

stateful_set_needs_update_iff_example :
    (stateful_set_needs_update app_set app_set ≡ ok false)
    ↔ ((pos 3 ≡ pos 3) × PodsAgree app_set.spec.template.spec app_set.spec.template.spec)
unfolding app_set
stateful_set_needs_update_iff_example =
    stateful_set_needs_update_iff app_set app_set (pos 3) (pos 3) refl refl

unfoldable pub desired_autoscaler : HorizontalPodAutoscaler
unfolding scale
desired_autoscaler = scale library radio "-autoscaler" "autoscaler" "radio" autoscaling

with_maximum : ℤ → HorizontalPodAutoscaler → HorizontalPodAutoscaler
with_maximum n a = record a { spec = record (a.spec) { max_replicas = n } }

pub desired_autoscaler_built : build_autoscaler library radio ≡ ok desired_autoscaler
unfolding build_autoscaler desired_autoscaler
desired_autoscaler_built = refl

autoscaler_needs_update_built_example :
    let current = with_maximum (pos 4) desired_autoscaler in
    (autoscaler_needs_update current desired_autoscaler ≡ false) ↔ (
      (current.spec.min_replicas ≡ some autoscaling.min_replicas)
      × (current.spec.max_replicas ≡ autoscaling.max_replicas)
      × MetricsAgree current.spec.metrics (
          metrics_asked autoscaling.target_cpu_utilization_percentage
            autoscaling.target_memory_utilization_percentage))
autoscaler_needs_update_built_example =
    autoscaler_needs_update_built library radio autoscaling
      (with_maximum (pos 4) desired_autoscaler) desired_autoscaler refl desired_autoscaler_built

get_provider-register_provider_example :
    get_provider (register_provider providers "maria" mysql_provider) "mysql" ≡ (
      if "maria" === "mysql" then some mysql_provider else elim (lookup "mysql" providers) [
        | some q ↦ some q
        | none ↦ if "maria" === "mariadb" then some mysql_provider else lookup "mariadb" providers
      ])
get_provider-register_provider_example =
    get_provider-register_provider providers "maria" "mysql" mysql_provider

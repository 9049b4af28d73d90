-- ===== src/Builder/Autoscalers.antt =====
-- The HorizontalPodAutoscalers of the application and of the database's replicas.
use kind_music_streaming.Prelude.{String, ◌<>◌, Option, none, some, List, [], ◌∷◌}
use kind_music_streaming.Prelude.Int.{ℤ}
use kind_music_streaming.Kube.{MetricSpec, HorizontalPodAutoscaler}
use kind_music_streaming.Api.{AutoscalingSpec, MusicService}
use kind_music_streaming.Exec.{Outcome, ok, deref, ◌>>=?◌}
use kind_music_streaming.Platform.{Library}
use kind_music_streaming.Builder.Common.{get_labels, name_of, owned_meta, build_resource_metric}

unfoldable pub memory_metric : Option ℤ → List MetricSpec
unfolding build_resource_metric
memory_metric none = []
memory_metric (some target) = build_resource_metric "memory" target ∷ []

-- The CPU metric, and a memory metric if the spec gives its target.
unfoldable pub utilization_metrics : AutoscalingSpec → List MetricSpec
unfolding build_resource_metric memory_metric
utilization_metrics a =
    build_resource_metric "cpu" a.target_cpu_utilization_percentage
    ∷ memory_metric a.target_memory_utilization_percentage

unfoldable pub scale :
    Library → MusicService → String → String → String → AutoscalingSpec → HorizontalPodAutoscaler
unfolding get_labels name_of owned_meta utilization_metrics
scale lib ms suffix label target a = record {
  metadata = owned_meta lib ms (name_of ms suffix) (get_labels ms label);
  spec = record {
    scale_target_ref = record { api_version = "apps/v1"; kind = "StatefulSet"; name = target };
    min_replicas = some a.min_replicas;
    max_replicas = a.max_replicas;
    metrics = utilization_metrics a;
    behavior = none;
  };
}

-- Panics at a spec with no autoscaling.
unfoldable pub build_autoscaler : Library → MusicService → Outcome HorizontalPodAutoscaler
unfolding scale deref
build_autoscaler lib ms = deref ms.spec.autoscaling >>=? λ a.
    ok (scale lib ms "-autoscaler" "autoscaler" ms.metadata.name a)

-- Panics at a spec with no database, or with no autoscaling of it.
unfoldable pub build_database_replica_autoscaler :
    Library → MusicService → Outcome HorizontalPodAutoscaler
unfolding scale deref
build_database_replica_autoscaler lib ms = deref ms.spec.database >>=? λ db.
    deref db.autoscaling >>=? λ a.
    ok (scale lib ms "-db-replica-autoscaler" "db-autoscaler" (ms.metadata.name <> "-db-replica") a)

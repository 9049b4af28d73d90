-- ===== src/Reconciler/Compare.antt =====
-- internal/reconciler/app.go: `statefulSetNeedsUpdate` and `autoscalerNeedsUpdate`.
pub mod Agreement
pub mod Metrics
use kind_music_streaming.Prelude.{
  Bool, true, false, not, ◌||◌, Option, none, some, List, ◌∷◌, length, deep_equal, ◌==◌, ◌===◌,
}
use kind_music_streaming.Prelude.Int.{ℤ, eqb_ℤ}
use kind_music_streaming.Kube.{
  Container, PodSpec, StatefulSet, ResourceMetricSource, MetricSpec, HorizontalPodAutoscaler,
  containers_discrete, volumes_discrete, resources_discrete, env_discrete, mounts_discrete,
  ports_discrete, probe_discrete,
}
use kind_music_streaming.Exec.{Outcome, ok, deref, ◌>>=?◌}

-- One round of the loop over the containers.
unfoldable pub container_differs : Container → Container → Bool
container_differs current desired =
    not (current.image === desired.image)
    || not (deep_equal resources_discrete current.resources desired.resources)
    || not (deep_equal env_discrete current.env desired.env)
    || not (deep_equal mounts_discrete current.volume_mounts desired.volume_mounts)
    || not (deep_equal ports_discrete current.ports desired.ports)
    || not (deep_equal probe_discrete current.readiness_probe desired.readiness_probe)
    || not (deep_equal probe_discrete current.liveness_probe desired.liveness_probe)

-- The loop runs over lists of one length.
unfoldable pub containers_differ : List Container → List Container → Bool
containers_differ (current ∷ more) (desired ∷ rest) =
    container_differs current desired || containers_differ more rest
containers_differ _ _ = false

unfoldable pub pods_differ : PodSpec → PodSpec → Bool
unfolding containers_differ
pods_differ current desired =
    not (deep_equal containers_discrete current.init_containers desired.init_containers)
    || not (deep_equal volumes_discrete current.volumes desired.volumes)
    || not (length current.containers == length desired.containers)
    || containers_differ current.containers desired.containers

-- Panics where a set has no number of replicas.
unfoldable pub stateful_set_needs_update : StatefulSet → StatefulSet → Outcome Bool
unfolding deref pods_differ
stateful_set_needs_update current desired = deref current.spec.replicas >>=? λ have.
    deref desired.spec.replicas >>=? λ want.
    ok (not (eqb_ℤ have want) || pods_differ current.spec.template.spec desired.spec.template.spec)

-- `if a == nil || b == nil { return a != b }`, then a test of the values and the rest.
pointers_differ {ℓ} : {A : Type ℓ} → (A → A → Bool → Bool) → Option A → Option A → Bool → Bool
pointers_differ values none none rest = false
pointers_differ values none (some _) rest = true
pointers_differ values (some _) none rest = true
pointers_differ values (some a) (some b) rest = values a b rest

numbers_differ : ℤ → ℤ → Bool → Bool
numbers_differ a b rest = not (eqb_ℤ a b) || rest

sources_differ : ResourceMetricSource → ResourceMetricSource → Bool → Bool
unfolding pointers_differ numbers_differ
sources_differ a b rest =
    not (a.name === b.name)
    || pointers_differ numbers_differ a.target.average_utilization b.target.average_utilization rest

-- A metric or a target that is absent on both sides ends the loop.
unfoldable pub metrics_differ : List MetricSpec → List MetricSpec → Bool
unfolding sources_differ
metrics_differ (metric ∷ more) (desired ∷ rest) =
    not (metric.type === desired.type)
    || pointers_differ sources_differ metric.resource desired.resource (metrics_differ more rest)
metrics_differ _ _ = false

unfoldable pub autoscaler_needs_update : HorizontalPodAutoscaler → HorizontalPodAutoscaler → Bool
unfolding metrics_differ pointers_differ numbers_differ
autoscaler_needs_update current desired =
    not (eqb_ℤ current.spec.max_replicas desired.spec.max_replicas)
    || pointers_differ numbers_differ current.spec.min_replicas desired.spec.min_replicas (
        not (length current.spec.metrics == length desired.spec.metrics)
        || metrics_differ current.spec.metrics desired.spec.metrics)

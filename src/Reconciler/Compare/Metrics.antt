-- ===== src/Reconciler/Compare/Metrics.antt =====
-- `autoscalerNeedsUpdate` against what two autoscalers must agree on.
use mathlib.Core.Option
use kind_music_streaming.Prelude.{
  String, Bool, ◌≡◌, refl, ◌↔◌, inl, inr, Option-cases, true, false, not, ◌||◌, Option, none, some,
  List, [], ◌∷◌, length, All, arith, eq_iff, ◌==◌,
}
use kind_music_streaming.Prelude.Int.{ℤ, eqb_ℤ-eq}
use kind_music_streaming.Kube.{ResourceMetricSource, MetricSpec, HorizontalPodAutoscaler}
use kind_music_streaming.Api.{AutoscalingSpec, MusicService}
use kind_music_streaming.Exec.{ok}
use kind_music_streaming.Platform.{Library}
use kind_music_streaming.Builder.{
  build_resource_metric, memory_metric, utilization_metrics, scale, build_autoscaler,
}
use kind_music_streaming.Reconciler.Compare.{
  pointers_differ, numbers_differ, sources_differ, metrics_differ, autoscaler_needs_update,
}

-- A metric names its resource and the utilization to aim at, as the builder's metrics do.
pub record IsTargeted (m : MetricSpec) : Type 0 where
  pub source : ResourceMetricSource
  pub percentage : ℤ
  pub has_source : m.resource ≡ some source
  pub has_percentage : source.target.average_utilization ≡ some percentage

-- The resource that a metric names, and the utilization to aim at.
abbrev pub aim : ResourceMetricSource → String × Option ℤ
aim source = (source.name, source.target.average_utilization)

abbrev pub target_of : MetricSpec → Option (String × Option ℤ)
target_of m = Option.map aim m.resource

pub record MetricAgrees (m d : MetricSpec) : Type 0 where
  pub type : m.type ≡ d.type
  pub target : target_of m ≡ target_of d

abbrev pub MetricsAgree : List MetricSpec → List MetricSpec → Type 0
MetricsAgree [] [] = Unit
MetricsAgree (m ∷ more) (d ∷ rest) = MetricAgrees m d × MetricsAgree more rest
MetricsAgree _ _ = ⊥

abbrev pub utilization : String → ℤ → MetricSpec
utilization name percentage = record {
  type = "Resource";
  resource = some (record {
    name = name;
    target = record {
      type = "Utilization";
      average_utilization = some percentage;
      other_fields = "";
    };
  });
  other_fields = "";
}

targeted : (name : String) (percentage : ℤ) → IsTargeted (utilization name percentage)
targeted name percentage = record {
  source = record {
    name = name;
    target = record {
      type = "Utilization";
      average_utilization = some percentage;
      other_fields = "";
    };
  };
  percentage = percentage;
  has_source = refl;
  has_percentage = refl;
}

numbers_differ_iff :
    (a : Option ℤ) (p : ℤ) (rest : Bool)
    → (pointers_differ numbers_differ a (some p) rest ≡ false) ↔ ((a ≡ some p) × (rest ≡ false))
unfolding pointers_differ numbers_differ
numbers_differ_iff none p rest = ground arith
numbers_differ_iff (some a) p rest = ground (arith, eqb_ℤ-eq a p)

sources_differ_iff :
    (a : Option ResourceMetricSource) (b : ResourceMetricSource) (p : ℤ) (rest : Bool)
    → b.target.average_utilization ≡ some p
    → (pointers_differ sources_differ a (some b) rest ≡ false)
      ↔ ((Option.map aim a ≡ some (aim b)) × (rest ≡ false))
unfolding sources_differ
sources_differ_iff none b p rest e = ground arith
sources_differ_iff (some a) b p rest e =
    ground (arith, eq_iff a.name b.name, numbers_differ_iff a.target.average_utilization p rest)

metrics_differ_iff :
    (ms ds : List MetricSpec)
    → All IsTargeted ds
    → (((length ms == length ds) ≡ true) × (metrics_differ ms ds ≡ false)) ↔ MetricsAgree ms ds
unfolding metrics_differ
metrics_differ_iff [] [] _ = ground arith
metrics_differ_iff (m ∷ more) (d ∷ rest) (t, ts) = ground (
  arith,
  eq_iff m.type d.type,
  sources_differ_iff m.resource t.source t.percentage (metrics_differ more rest),
  metrics_differ_iff more rest ts,
)
metrics_differ_iff [] (_ ∷ _) _ = ground arith
metrics_differ_iff (_ ∷ _) [] _ = ground arith

-- Against an autoscaler with a minimum and targeted metrics, no update is needed exactly when the
-- two have the same minimum, the same maximum, and metric by metric the same type, resource and
-- utilization.
pub autoscaler_needs_update_iff :
    (current desired : HorizontalPodAutoscaler) (least : ℤ)
    → desired.spec.min_replicas ≡ some least
    → All IsTargeted desired.spec.metrics
    → (autoscaler_needs_update current desired ≡ false) ↔ (
        (current.spec.min_replicas ≡ some least)
        × (current.spec.max_replicas ≡ desired.spec.max_replicas)
        × MetricsAgree current.spec.metrics desired.spec.metrics)
unfolding autoscaler_needs_update
autoscaler_needs_update_iff current desired least e ts = rw e (
    ground (
      arith,
      eqb_ℤ-eq current.spec.max_replicas desired.spec.max_replicas,
      numbers_differ_iff current.spec.min_replicas least (
          not (length current.spec.metrics == length desired.spec.metrics)
          || metrics_differ current.spec.metrics desired.spec.metrics),
      metrics_differ_iff current.spec.metrics desired.spec.metrics ts,
    ))

-- The metrics that a spec asks for: its target for the CPU, and for the memory if it has one.
abbrev pub metrics_asked : ℤ → Option ℤ → List MetricSpec
metrics_asked cpu none = utilization "cpu" cpu ∷ []
metrics_asked cpu (some memory) = utilization "cpu" cpu ∷ utilization "memory" memory ∷ []

metrics_asked-IsTargeted : (cpu : ℤ) (memory : Option ℤ) → All IsTargeted (metrics_asked cpu memory)
metrics_asked-IsTargeted cpu none = (targeted "cpu" cpu, tt)
metrics_asked-IsTargeted cpu (some memory) = (targeted "cpu" cpu, (targeted "memory" memory, tt))

utilization_metrics-asked :
    (a : AutoscalingSpec)
    → utilization_metrics a
      ≡ metrics_asked a.target_cpu_utilization_percentage a.target_memory_utilization_percentage
unfolding utilization_metrics memory_metric build_resource_metric
utilization_metrics-asked a = elim (Option-cases a.target_memory_utilization_percentage) [
  | inl absent ↦ rw absent refl
  | inr (target, given) ↦ rw given refl
]

utilization_metrics-IsTargeted : (a : AutoscalingSpec) → All IsTargeted (utilization_metrics a)
utilization_metrics-IsTargeted a = rw (utilization_metrics-asked a) (
    metrics_asked-IsTargeted a.target_cpu_utilization_percentage
      a.target_memory_utilization_percentage)

-- The application's autoscaler is updated unless the existing one has the minimum and the maximum of
-- the spec and, in this order, metrics of the type "Resource": one for "cpu" with the spec's target,
-- and one for "memory" with its target exactly if the spec has one.
pub autoscaler_needs_update_built :
    (lib : Library) (ms : MusicService) (a : AutoscalingSpec)
    (current desired : HorizontalPodAutoscaler)
    → ms.spec.autoscaling ≡ some a
    → build_autoscaler lib ms ≡ ok desired
    → (autoscaler_needs_update current desired ≡ false) ↔ (
        (current.spec.min_replicas ≡ some a.min_replicas)
        × (current.spec.max_replicas ≡ a.max_replicas)
        × MetricsAgree current.spec.metrics (
            metrics_asked a.target_cpu_utilization_percentage
              a.target_memory_utilization_percentage))
unfolding build_autoscaler
autoscaler_needs_update_built lib ms a current desired given built =
    rw (← utilization_metrics-asked a, ← scaled)
      (autoscaler_needs_update_iff current target a.min_replicas refl
        (utilization_metrics-IsTargeted a))
  where
    target : HorizontalPodAutoscaler
    target = scale lib ms "-autoscaler" "autoscaler" ms.metadata.name a

    scaled : target ≡ desired
    scaled = ground arith

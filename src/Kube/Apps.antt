-- ===== src/Kube/Apps.antt =====
-- StatefulSets (apps/v1) and HorizontalPodAutoscalers (autoscaling/v2).
use kind_music_streaming.Prelude.{String, string_discrete, Option, List, Map}
use kind_music_streaming.Prelude.Int.{ℤ, ℤ_discrete}
use kind_music_streaming.Kube.Meta.{ObjectMeta}
use kind_music_streaming.Kube.Core.{Container, Volume, PersistentVolumeClaim}

pub record PodSpec : Type 0 where
  pub init_containers : List Container
  pub containers : List Container
  pub volumes : List Volume

pub record PodTemplateSpec : Type 0 where
  pub labels : Map String
  pub spec : PodSpec

pub record StatefulSetSpec : Type 0 where
  pub replicas : Option ℤ
  pub service_name : String
  pub match_labels : Map String
  pub template : PodTemplateSpec
  pub volume_claim_templates : List PersistentVolumeClaim

pub record StatefulSet : Type 0 where
  pub metadata : ObjectMeta
  pub spec : StatefulSetSpec
  -- `Status.ReadyReplicas`
  pub ready_replicas : ℤ

pub record CrossVersionObjectReference : Type 0 where
  pub api_version : String
  pub kind : String
  pub name : String

pub record MetricTarget : Type 0 where
  pub type : String
  pub average_utilization : Option ℤ
  pub other_fields : String

pub record ResourceMetricSource : Type 0 where
  pub name : String
  pub target : MetricTarget

pub record MetricSpec : Type 0 where
  pub type : String
  pub resource : Option ResourceMetricSource
  pub other_fields : String

pub record HorizontalPodAutoscalerSpec : Type 0 where
  pub scale_target_ref : CrossVersionObjectReference
  pub min_replicas : Option ℤ
  pub max_replicas : ℤ
  pub metrics : List MetricSpec
  -- an opaque value, which the program never sets
  pub behavior : Option String

pub record HorizontalPodAutoscaler : Type 0 where
  pub metadata : ObjectMeta
  pub spec : HorizontalPodAutoscalerSpec

unfoldable pub autoscaler_spec_discrete : Discrete HorizontalPodAutoscalerSpec
unfolding string_discrete ℤ_discrete
autoscaler_spec_discrete = hlevel (string_discrete, ℤ_discrete)

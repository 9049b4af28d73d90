-- ===== src/Kube/Core.antt =====
-- Services, secrets, containers and volume claims (core/v1).
use kind_music_streaming.Prelude.{ℕ, String, string_discrete, Bool, Option, List, Map}
use kind_music_streaming.Prelude.Int.{ℤ, ℤ_discrete}
use kind_music_streaming.Kube.Meta.{ObjectMeta}

-- A `resource.Quantity` is the number that it stands for, in thousandths: all that `Cmp` reads.
pub record Quantity : Type 0 where
  pub thousandths : ℤ

-- In what follows `other_fields` are the fields of a struct that the program never sets, as a text
-- that is empty where they all have their zero values. Those that the API server fills in have names
-- of their own: `reflect.DeepEqual` compares both.

-- Quantities of compute resources are only handed on and compared, and stay texts.
pub record ResourceRequirements : Type 0 where
  pub limits : Map String
  pub requests : Map String
  pub other_fields : String

pub data IntOrString : Type 0 where
  from_int : ℤ → IntOrString
  from_string : String → IntOrString

pub record ServicePort : Type 0 where
  pub name : String
  pub port : ℤ
  pub target_port : IntOrString
  pub protocol : String

pub record ServiceSpec : Type 0 where
  pub selector : Map String
  pub ports : List ServicePort
  pub type : String
  pub cluster_ip : String
  pub publish_not_ready_addresses : Bool

pub record Service : Type 0 where
  pub metadata : ObjectMeta
  pub spec : ServiceSpec

pub record Secret : Type 0 where
  pub metadata : ObjectMeta
  pub type : String
  pub contents : Map (List ℕ)

pub data EnvVarSource : Type 0 where
  -- the version of the API, and the path of the field
  field_ref : String → String → EnvVarSource
  -- the secret's name, and the key in it
  secret_key_ref : String → String → EnvVarSource
  -- a source that the program does not use, or a key of a secret that may be missing
  other_env_source : String → EnvVarSource

pub record EnvVar : Type 0 where
  pub name : String
  pub value : String
  pub value_from : Option EnvVarSource

pub record ContainerPort : Type 0 where
  pub name : String
  pub container_port : ℤ
  pub protocol : String
  pub other_fields : String

pub record VolumeMount : Type 0 where
  pub name : String
  pub mount_path : String
  pub other_fields : String

-- A probe that runs a command.
pub record Probe : Type 0 where
  pub exec : List String
  pub initial_delay_seconds : ℤ
  pub period_seconds : ℤ
  pub timeout_seconds : ℤ
  pub success_threshold : ℤ
  pub failure_threshold : ℤ
  pub other_fields : String

pub record Container : Type 0 where
  pub name : String
  pub image : String
  pub command : List String
  pub env : List EnvVar
  pub ports : List ContainerPort
  pub resources : ResourceRequirements
  pub volume_mounts : List VolumeMount
  pub readiness_probe : Option Probe
  pub liveness_probe : Option Probe
  pub termination_message_path : String
  pub termination_message_policy : String
  pub image_pull_policy : String
  pub other_fields : String

pub data VolumeSource : Type 0 where
  empty_dir : VolumeSource
  -- a source that the program does not use, or an emptyDir with settings
  other_volume_source : String → VolumeSource

pub record Volume : Type 0 where
  pub name : String
  pub source : VolumeSource

pub record PersistentVolumeClaim : Type 0 where
  pub metadata : ObjectMeta
  pub access_modes : List String
  pub requests : Map Quantity
  pub phase : String

-- Equality of the parts that `reflect.DeepEqual` is applied to.
unfoldable pub containers_discrete : Discrete (List Container)
unfolding string_discrete ℤ_discrete
containers_discrete = hlevel (string_discrete, ℤ_discrete)

unfoldable pub volumes_discrete : Discrete (List Volume)
unfolding string_discrete
volumes_discrete = hlevel string_discrete

unfoldable pub resources_discrete : Discrete ResourceRequirements
unfolding string_discrete
resources_discrete = hlevel string_discrete

unfoldable pub env_discrete : Discrete (List EnvVar)
unfolding string_discrete
env_discrete = hlevel string_discrete

unfoldable pub mounts_discrete : Discrete (List VolumeMount)
unfolding string_discrete
mounts_discrete = hlevel string_discrete

unfoldable pub ports_discrete : Discrete (List ContainerPort)
unfolding string_discrete ℤ_discrete
ports_discrete = hlevel (string_discrete, ℤ_discrete)

unfoldable pub probe_discrete : Discrete (Option Probe)
unfolding string_discrete ℤ_discrete
probe_discrete = hlevel (string_discrete, ℤ_discrete)

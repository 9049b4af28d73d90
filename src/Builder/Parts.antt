-- ===== src/Builder/Parts.antt =====
-- The parts that the StatefulSets have in common.
use kind_music_streaming.Prelude.{String, none, some, List, [], ◌∷◌}
use kind_music_streaming.Prelude.Int.{ℤ, pos}
use kind_music_streaming.Kube.{
  NamespacedName, Quantity, EnvVar, field_ref, secret_key_ref, ContainerPort, VolumeMount, Probe,
  Container, Volume, empty_dir, PersistentVolumeClaim, PodSpec, StatefulSet,
}
use kind_music_streaming.Api.{MusicService}
use kind_music_streaming.Platform.{Library}
use kind_music_streaming.Builder.Common.{
  get_labels, selector_labels, owned_meta, no_resources, DatabaseConfig,
}

abbrev pub env_value : String → String → EnvVar
env_value name value = record { name = name; value = value; value_from = none }

abbrev pub env_field : String → String → EnvVar
env_field name path = record { name = name; value = ""; value_from = some (field_ref "" path) }

abbrev pub env_secret : String → String → String → EnvVar
env_secret name secret key = record {
  name = name;
  value = "";
  value_from = some (secret_key_ref secret key);
}

abbrev pub container_port : String → ℤ → ContainerPort
container_port name port = record {
  name = name;
  container_port = port;
  protocol = "TCP";
  other_fields = "";
}

abbrev pub mount : String → String → VolumeMount
mount name path = record { name = name; mount_path = path; other_fields = "" }

abbrev pub config_volumes : List Volume
config_volumes = record { name = "db-config"; source = empty_dir } ∷ []

-- `mysqladmin ping`, after a delay and then periodically
abbrev pub ping_probe : ℤ → ℤ → Probe
ping_probe delay period = record {
  exec = "/bin/sh" ∷ "-c" ∷ "mysqladmin ping -uroot -p$MYSQL_ROOT_PASSWORD" ∷ [];
  initial_delay_seconds = delay;
  period_seconds = period;
  timeout_seconds = pos 0;
  success_threshold = pos 0;
  failure_threshold = pos 0;
  other_fields = "";
}

-- A container that runs a script.
abbrev pub script_container : String → String → String → List EnvVar → List VolumeMount → Container
script_container name image script env mounts = record {
  name = name;
  image = image;
  command = "/bin/sh" ∷ "-c" ∷ script ∷ [];
  env = env;
  ports = [];
  resources = no_resources;
  volume_mounts = mounts;
  readiness_probe = none;
  liveness_probe = none;
  termination_message_path = "";
  termination_message_policy = "";
  image_pull_policy = "";
  other_fields = "";
}

-- The database server's container.
abbrev pub mariadb_container : DatabaseConfig → List EnvVar → List ContainerPort → Container
mariadb_container config env ports = record {
  name = "mariadb";
  image = config.image;
  command = [];
  env = env;
  ports = ports;
  resources = no_resources;
  volume_mounts = mount "db-data" "/var/lib/mysql" ∷ mount "db-config" "/etc/mysql/conf.d" ∷ [];
  readiness_probe = some (ping_probe (pos 10) (pos 10));
  liveness_probe = some (ping_probe (pos 30) (pos 20));
  termination_message_path = "";
  termination_message_policy = "";
  image_pull_policy = "";
  other_fields = "";
}

abbrev pub database_env : DatabaseConfig → List EnvVar
database_env config =
    env_value "MYSQL_ROOT_PASSWORD" config.root_password ∷ env_value "MYSQL_DATABASE" "musicdb" ∷ []

-- A claim template: a name and the requested size.
abbrev pub claim_template : String → Quantity → PersistentVolumeClaim
claim_template name size = record {
  metadata = record {
    name = name;
    namespace = "";
    uid = "";
    generation = pos 0;
    labels = [];
    owner_references = [];
    finalizers = [];
    deletion_timestamp = none;
  };
  access_modes = "ReadWriteOnce" ∷ [];
  requests = ("storage", size) ∷ [];
  phase = "";
}

-- A StatefulSet whose headless service has its own name.
abbrev pub owned_stateful_set :
    Library
    → MusicService
    → NamespacedName
    → String
    → String
    → ℤ
    → PodSpec
    → PersistentVolumeClaim
    → StatefulSet
owned_stateful_set lib ms key label component replicas pods claim = record {
  metadata = owned_meta lib ms key (get_labels ms label);
  spec = record {
    replicas = some replicas;
    service_name = key.name;
    match_labels = selector_labels ms component;
    template = record { labels = selector_labels ms component; spec = pods };
    volume_claim_templates = claim ∷ [];
  };
  ready_replicas = pos 0;
}

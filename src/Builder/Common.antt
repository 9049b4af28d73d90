-- ===== src/Builder/Common.antt =====
-- Labels, metadata, metrics and the database's configuration.
pub mod Buildable
use kind_music_streaming.Prelude.{
  String, ◌<>◌, Bool, true, Option, none, some, [], ◌∷◌, Map, ◌===◌, if◌then◌else◌,
}
use kind_music_streaming.Prelude.Int.{ℤ, pos}
use kind_music_streaming.Kube.{
  ObjectMeta, NamespacedName, Quantity, MetricSpec, ResourceRequirements,
}
use kind_music_streaming.Api.{
  DatabaseSpec, DatabaseReplicationSpec, MusicService, StorageSpec, music_service_kind,
}
use kind_music_streaming.Exec.{Outcome, ok, ◌>>=?◌}
use kind_music_streaming.Platform.{Library, must_parse}

unfoldable pub get_labels : MusicService → String → Map String
get_labels ms component =
    ("app", ms.metadata.name)
    ∷ ("component", component)
    ∷ ("app.kubernetes.io/name", "music-service")
    ∷ ("app.kubernetes.io/instance", ms.metadata.name)
    ∷ ("app.kubernetes.io/managed-by", "music-operator")
    ∷ []

-- The selector of a service and of a StatefulSet, and the labels of its pods.
unfoldable pub selector_labels : MusicService → String → Map String
selector_labels ms component = ("app", ms.metadata.name) ∷ ("component", component) ∷ []

-- `ms.Name + suffix` in the namespace of the MusicService
unfoldable pub name_of : MusicService → String → NamespacedName
name_of ms suffix = record { name = ms.metadata.name <> suffix; namespace = ms.metadata.namespace }

-- The metadata that every built object has: a name, labels and the MusicService as controller.
unfoldable pub owned_meta : Library → MusicService → NamespacedName → Map String → ObjectMeta
owned_meta lib ms key labels = record {
  name = key.name;
  namespace = key.namespace;
  uid = "";
  generation = pos 0;
  labels = labels;
  owner_references = lib.new_controller_ref ms.metadata music_service_kind ∷ [];
  finalizers = [];
  deletion_timestamp = none;
}

abbrev pub no_resources : ResourceRequirements
no_resources = record { limits = []; requests = []; other_fields = "" }

unfoldable pub build_resource_metric : String → ℤ → MetricSpec
build_resource_metric resource_name target_utilization = record {
  type = "Resource";
  resource = some (record {
    name = resource_name;
    target = record {
      type = "Utilization";
      average_utilization = some target_utilization;
      other_fields = "";
    };
  });
  other_fields = "";
}

pub record DatabaseConfig : Type 0 where
  pub image : String
  pub storage_size : Quantity
  pub root_password : String
  pub replicas : ℤ
  pub master_host : String
  pub replication_enabled : Bool
  pub replication_gtid : Bool
  pub replication_secret : String

unfoldable pub replication_secret_name : MusicService → String
replication_secret_name ms = ms.metadata.name <> "-db-replication"

-- A text of the spec, or the default where it is empty.
unfoldable pub or_default : String → String → String
or_default given default = if given === "" then default else given

-- A flag of the spec, or the default where it is absent.
unfoldable pub flag_or : Option Bool → Bool → Bool
flag_or none default = default
flag_or (some b) default = b

replication_flag : (DatabaseReplicationSpec → Option Bool) → Option DatabaseReplicationSpec → Bool
unfolding flag_or
replication_flag field none = true
replication_flag field (some r) = flag_or (field r) true

storage_size_of : Library → Quantity → Option StorageSpec → Outcome Quantity
storage_size_of lib default none = ok default
storage_size_of lib default (some storage) = must_parse lib storage.size

default_config : MusicService → Quantity → DatabaseConfig
unfolding replication_secret_name
default_config ms size = record {
  image = "mariadb:10.11";
  storage_size = size;
  root_password = "rootpass";
  replicas = pos 0;
  master_host = ms.metadata.name <> "-db-master";
  replication_enabled = true;
  replication_gtid = true;
  replication_secret = replication_secret_name ms;
}

configure : Library → MusicService → Quantity → Option DatabaseSpec → Outcome DatabaseConfig
unfolding default_config or_default replication_flag storage_size_of
configure lib ms default none = ok (default_config ms default)
configure lib ms default (some db) = storage_size_of lib default db.storage >>=? λ size.
    ok (record (default_config ms size) {
      replicas = db.replicas;
      image = or_default db.image "mariadb:10.11";
      root_password = or_default db.root_password "rootpass";
      replication_enabled = replication_flag (λ r. r.enabled) db.replication;
      replication_gtid = replication_flag (λ r. r.gtid) db.replication;
    })

unfoldable pub build_database_config : Library → MusicService → Outcome DatabaseConfig
unfolding configure must_parse
build_database_config lib ms =
    must_parse lib "10Gi" >>=? λ default. configure lib ms default ms.spec.database

-- ===== src/Tests/Examples.antt =====
-- A MusicService, a library and a cluster to run the operator on.
use kind_music_streaming.Prelude.{
  String, ◌<>◌, Bool, true, false, Option, none, some, List, [], ◌∷◌, ◌++◌, ◌===◌, if◌then◌else◌,
}
use kind_music_streaming.Prelude.Int.{pos}
use kind_music_streaming.Kube.{
  ObjectMeta, OwnerReference, GroupVersionKind, Quantity, PersistentVolumeClaim,
}
use kind_music_streaming.Api.{
  StorageSpec, AutoscalingSpec, DatabaseSpec, MusicServiceSpec, MusicServiceStatus, MusicService,
}
use kind_music_streaming.Platform.{Library}
use kind_music_streaming.Tests.Memory.{Cluster}

abbrev pub gibibytes_10 : Quantity
gibibytes_10 = record { thousandths = pos 10737418240000 }

abbrev pub gibibytes_5 : Quantity
gibibytes_5 = record { thousandths = pos 5368709120000 }

abbrev pub parse : String → Option Quantity
parse s = if s === "10Gi" then some gibibytes_10 else if s === "5Gi" then some gibibytes_5 else none

abbrev pub any_is : List String → String → Bool
any_is [] s = false
any_is (t ∷ rest) s = if t === s then true else any_is rest s

abbrev pub owner_of : ObjectMeta → GroupVersionKind → OwnerReference
owner_of m g = record {
  api_version = g.group <> "/" <> g.version;
  kind = g.kind;
  name = m.name;
  uid = m.uid;
  controller = some true;
  block_owner_deletion = some true;
}

abbrev pub library : Library
library = record {
  parse_quantity = parse;
  new_controller_ref = owner_of;
  contains_finalizer = any_is;
  add_finalizer = λ l s. if any_is l s then l else l ++ (s ∷ []);
  remove_finalizer = λ l s. [];
}

abbrev pub meta : String → ObjectMeta
meta name = record {
  name = name;
  namespace = "music";
  uid = "7";
  generation = pos 3;
  labels = [];
  owner_references = [];
  finalizers = [];
  deletion_timestamp = none;
}

abbrev pub autoscaling : AutoscalingSpec
autoscaling = record {
  min_replicas = pos 1;
  max_replicas = pos 5;
  target_cpu_utilization_percentage = pos 70;
  target_memory_utilization_percentage = some (pos 80);
}

abbrev pub storage : StorageSpec
storage = record { size = "10Gi"; update_policy = "" }

abbrev pub database : DatabaseSpec
database = record {
  enabled = true;
  replicas = pos 2;
  image = "";
  storage = some storage;
  root_password = "";
  replication = none;
  autoscaling = none;
  high_availability = none;
}

abbrev pub status : MusicServiceStatus
status = record {
  observed_generation = pos 0;
  desired_replicas = pos 0;
  ready_replicas = pos 0;
  phase = "";
  last_reconcile_time = none;
  last_error = "";
  conditions = [];
  database = none;
}

abbrev pub spec : MusicServiceSpec
spec = record {
  replicas = pos 3;
  image = "navidrome:1";
  port = pos 8080;
  storage = storage;
  streaming = record { bitrate = "320k"; max_connections = pos 100 };
  resources = none;
  autoscaling = some autoscaling;
  database = some database;
}

abbrev pub radio : MusicService
radio = record { metadata = meta "radio"; spec = spec; status = status }

-- The same without a database and without autoscaling.
abbrev pub plain : MusicService
plain = record radio { spec = record spec { autoscaling = none; database = none } }

abbrev pub volume_claim : String → PersistentVolumeClaim
volume_claim name = record {
  metadata = meta name;
  access_modes = "ReadWriteOnce" ∷ [];
  requests = ("storage", gibibytes_5) ∷ [];
  phase = "Bound";
}

-- A cluster with the claims of two pods, the second one's set named "radio-live".
abbrev pub cluster : Cluster
cluster = record {
  sets = [];
  services = [];
  autoscalers = [];
  secrets = [];
  claims = volume_claim "music-data-radio-0" ∷ volume_claim "music-data-radio-live-0" ∷ [];
  music_services = radio ∷ [];
  clock = 1000;
  events = [];
  deletions = 0;
}

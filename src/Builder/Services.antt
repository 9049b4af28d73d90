-- ===== src/Builder/Services.antt =====
-- The services of the application and of the database.
use kind_music_streaming.Prelude.{String, Bool, true, false, List, [], ◌∷◌}
use kind_music_streaming.Prelude.Int.{ℤ, pos}
use kind_music_streaming.Kube.{from_int, ServicePort, Service}
use kind_music_streaming.Api.{MusicService}
use kind_music_streaming.Platform.{Library}
use kind_music_streaming.Builder.Common.{get_labels, selector_labels, name_of, owned_meta}

-- A port with no target port of its own.
tcp_port : String → ℤ → ServicePort
tcp_port name port = record {
  name = name;
  port = port;
  target_port = from_int (pos 0);
  protocol = "TCP";
}

unfoldable pub build_app_service : Library → MusicService → Service
unfolding get_labels selector_labels name_of owned_meta
build_app_service lib ms = record {
  metadata =
      owned_meta lib ms (record { name = ms.metadata.name; namespace = ms.metadata.namespace })
        (get_labels ms "app");
  spec = record {
    selector = selector_labels ms "music-service";
    ports =
        record {
          name = "http";
          port = ms.spec.port;
          target_port = from_int (pos 80);
          protocol = "TCP";
        }
        ∷ [];
    type = "ClusterIP";
    cluster_ip = "";
    publish_not_ready_addresses = false;
  };
}

-- A service of the database: its name, label, the pods that it selects, its ports, and whether it
-- is headless and lists pods that are not ready.
database_service :
    Library → MusicService → String → String → String → List ServicePort → String → Bool → Service
unfolding get_labels selector_labels name_of owned_meta
database_service lib ms suffix label component ports cluster_ip not_ready = record {
  metadata = owned_meta lib ms (name_of ms suffix) (get_labels ms label);
  spec = record {
    selector = selector_labels ms component;
    ports = ports;
    type = "ClusterIP";
    cluster_ip = cluster_ip;
    publish_not_ready_addresses = not_ready;
  };
}

mysql_port : List ServicePort
unfolding tcp_port
mysql_port = tcp_port "mysql" (pos 3306) ∷ []

unfoldable pub build_database_galera_service : Library → MusicService → Service
unfolding database_service tcp_port
build_database_galera_service lib ms =
    database_service lib ms "-db-galera" "db-galera" "db-galera"
      (tcp_port "mysql" (pos 3306)
        ∷ tcp_port "galera-repl" (pos 4444)
        ∷ tcp_port "galera-ist" (pos 4568)
        ∷ tcp_port "galera-sst" (pos 4567)
        ∷ [])
      "None" true

unfoldable pub build_database_galera_primary_service : Library → MusicService → Service
unfolding database_service mysql_port
build_database_galera_primary_service lib ms =
    database_service lib ms "-db-master" "db-primary" "db-galera" mysql_port "" false

unfoldable pub build_database_galera_read_service : Library → MusicService → Service
unfolding database_service mysql_port
build_database_galera_read_service lib ms =
    database_service lib ms "-db-read" "db-read" "db-galera" mysql_port "" false

unfoldable pub build_database_master_service : Library → MusicService → Service
unfolding database_service mysql_port
build_database_master_service lib ms =
    database_service lib ms "-db-master" "db-master" "db-master" mysql_port "None" false

unfoldable pub build_database_read_service : Library → MusicService → Service
unfolding database_service mysql_port
build_database_read_service lib ms =
    database_service lib ms "-db-read" "db-read" "db-replica" mysql_port "" false

-- ===== src/Builder/Database.antt =====
-- The StatefulSets of the database's master and of its replicas.
use kind_music_streaming.Prelude.{String, List, [], ◌∷◌, ◌++◌, if◌then◌else◌}
use kind_music_streaming.Prelude.Int.{pos}
use kind_music_streaming.Kube.{EnvVar, Container, StatefulSet}
use kind_music_streaming.Api.{MusicService}
use kind_music_streaming.Exec.{Outcome, ok, ◌>>=?◌}
use kind_music_streaming.Platform.{Library}
use kind_music_streaming.Builder.Common.{
  get_labels, selector_labels, name_of, owned_meta, DatabaseConfig, build_database_config,
}
use kind_music_streaming.Builder.Scripts.{
  build_replica_setup_script, build_master_config_script, build_replica_config_script,
}
use kind_music_streaming.Builder.Parts.{
  env_value, env_field, env_secret, container_port, mount, config_volumes, script_container,
  mariadb_container, database_env, claim_template, owned_stateful_set,
}

master_stateful_set : Library → MusicService → DatabaseConfig → StatefulSet
unfolding get_labels selector_labels name_of owned_meta
master_stateful_set lib ms config =
    owned_stateful_set lib ms (name_of ms "-db-master") "db-master" "db-master" (pos 1)
      (record {
        init_containers =
            script_container "init-db-config" config.image build_master_config_script []
              (mount "db-config" "/db-config" ∷ [])
            ∷ [];
        containers =
            mariadb_container config (database_env config) (container_port "mysql" (pos 3306) ∷ [])
            ∷ [];
        volumes = config_volumes;
      })
      (claim_template "db-data" config.storage_size)

unfoldable pub build_database_master_stateful_set : Library → MusicService → Outcome StatefulSet
unfolding master_stateful_set build_database_config
build_database_master_stateful_set lib ms =
    build_database_config lib ms >>=? λ config. ok (master_stateful_set lib ms config)

-- The user and the password of the replication, from its secret.
replication_env : DatabaseConfig → List EnvVar
replication_env config =
    env_secret "REPLICATION_USER" config.replication_secret "username"
    ∷ env_secret "REPLICATION_PASSWORD" config.replication_secret "password"
    ∷ []

unfoldable pub build_replica_setup_container : DatabaseConfig → String → List Container
unfolding replication_env
build_replica_setup_container config script =
    if config.replication_enabled
    then script_container "replication-setup" config.image script
        (env_value "MYSQL_ROOT_PASSWORD" config.root_password ∷ replication_env config) []
      ∷ []
    else []

replica_stateful_set : Library → MusicService → DatabaseConfig → StatefulSet
unfolding get_labels selector_labels name_of owned_meta replication_env
    build_replica_setup_container
replica_stateful_set lib ms config =
    owned_stateful_set lib ms (name_of ms "-db-replica") "db-replica" "db-replica" config.replicas
      (record {
        init_containers =
            script_container "init-db-config" config.image build_replica_config_script
              (env_field "POD_NAME" "metadata.name" ∷ []) (mount "db-config" "/db-config" ∷ [])
            ∷ [];
        containers =
            mariadb_container config
              (database_env config
                ++ (if config.replication_enabled then replication_env config else []))
              (container_port "mysql" (pos 3306) ∷ [])
            ∷ build_replica_setup_container config (build_replica_setup_script config.master_host);
        volumes = config_volumes;
      })
      (claim_template "db-data" config.storage_size)

unfoldable pub build_database_replica_stateful_set : Library → MusicService → Outcome StatefulSet
unfolding replica_stateful_set build_database_config
build_database_replica_stateful_set lib ms =
    build_database_config lib ms >>=? λ config. ok (replica_stateful_set lib ms config)

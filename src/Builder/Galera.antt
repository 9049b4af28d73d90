-- ===== src/Builder/Galera.antt =====
-- The StatefulSet of the Galera cluster, whose nodes are all peers.
use kind_music_streaming.Prelude.{String, ◌<>◌, [], ◌∷◌}
use kind_music_streaming.Prelude.Int.{ℤ, pos, succ_int32}
use kind_music_streaming.Kube.{StatefulSet}
use kind_music_streaming.Api.{MusicService}
use kind_music_streaming.Exec.{Outcome, ok, ◌>>=?◌}
use kind_music_streaming.Platform.{Library}
use kind_music_streaming.Builder.Common.{
  get_labels, selector_labels, name_of, owned_meta, DatabaseConfig, build_database_config,
}
use kind_music_streaming.Builder.Scripts.{build_galera_config_script}
use kind_music_streaming.Builder.Parts.{
  env_field, container_port, mount, config_volumes, script_container, mariadb_container,
  database_env, claim_template, owned_stateful_set,
}

galera_stateful_set : Library → MusicService → DatabaseConfig → ℤ → String → StatefulSet
unfolding get_labels selector_labels name_of owned_meta
galera_stateful_set lib ms config total_replicas config_script =
    owned_stateful_set lib ms (name_of ms "-db-galera") "db-galera" "db-galera" total_replicas
      (record {
        init_containers =
            script_container "init-galera-config" config.image config_script
              (env_field "POD_NAME" "metadata.name" ∷ env_field "POD_IP" "status.podIP" ∷ [])
              (mount "db-config" "/db-config" ∷ mount "db-data" "/var/lib/mysql" ∷ [])
            ∷ [];
        containers =
            mariadb_container config (database_env config) (
              container_port "mysql" (pos 3306)
              ∷ container_port "galera-repl" (pos 4444)
              ∷ container_port "galera-ist" (pos 4568)
              ∷ container_port "galera-sst" (pos 4567)
              ∷ [])
            ∷ [];
        volumes = config_volumes;
      })
      (claim_template "db-data" config.storage_size)

-- One initial node and the configured replicas, in an int32.
unfoldable pub build_database_galera_stateful_set : Library → MusicService → Outcome StatefulSet
unfolding galera_stateful_set build_database_config build_galera_config_script succ_int32
build_database_galera_stateful_set lib ms = build_database_config lib ms >>=? λ config.
    let total_replicas = succ_int32 config.replicas in
    build_galera_config_script (ms.metadata.name <> "-db-galera") ms.metadata.namespace
      total_replicas
    >>=? λ script. ok (galera_stateful_set lib ms config total_replicas script)

-- ===== src/Builder/App.antt =====
-- The StatefulSet of the application.
use kind_music_streaming.Prelude.{suc, String, ◌<>◌, Option, none, some, [], ◌∷◌, decimal}
use kind_music_streaming.Prelude.Int.{ℤ, pos, negsuc}
use kind_music_streaming.Kube.{ResourceRequirements, Quantity, Container, StatefulSet}
use kind_music_streaming.Api.{MusicService}
use kind_music_streaming.Exec.{Outcome, ok, ◌>>=?◌}
use kind_music_streaming.Platform.{Library, must_parse}
use kind_music_streaming.Builder.Common.{no_resources, get_labels, selector_labels, owned_meta}
use kind_music_streaming.Builder.Parts.{
  env_value, container_port, mount, claim_template, owned_stateful_set,
}

-- `%d` of a signed number
unfoldable pub decimal_ℤ : ℤ → String
decimal_ℤ (pos n) = decimal n
decimal_ℤ (negsuc n) = "-" <> decimal (suc n)

resources_of : Option ResourceRequirements → ResourceRequirements
resources_of none = no_resources
resources_of (some r) = r

app_container : MusicService → Container
unfolding resources_of decimal_ℤ
app_container ms = record {
  name = "music-service";
  image = ms.spec.image;
  command = [];
  env =
      env_value "STREAMING_BITRATE" ms.spec.streaming.bitrate
      ∷ env_value "MAX_CONNECTIONS" (decimal_ℤ ms.spec.streaming.max_connections)
      ∷ [];
  ports = container_port "http" (pos 80) ∷ [];
  resources = resources_of ms.spec.resources;
  volume_mounts = mount "music-data" "/data" ∷ [];
  readiness_probe = none;
  liveness_probe = none;
  termination_message_path = "";
  termination_message_policy = "";
  image_pull_policy = "";
  other_fields = "";
}

app_stateful_set : Library → MusicService → Quantity → StatefulSet
unfolding app_container get_labels selector_labels owned_meta
app_stateful_set lib ms size =
    owned_stateful_set lib ms
      (record { name = ms.metadata.name; namespace = ms.metadata.namespace }) "app" "music-service"
      ms.spec.replicas
      (record { init_containers = []; containers = app_container ms ∷ []; volumes = [] })
      (claim_template "music-data" size)

unfoldable pub build_app_stateful_set : Library → MusicService → Outcome StatefulSet
unfolding app_stateful_set must_parse
build_app_stateful_set lib ms =
    must_parse lib ms.spec.storage.size >>=? λ size. ok (app_stateful_set lib ms size)

-- ===== src/Builder/Ownership.antt =====
-- Every built object belongs to its MusicService.
use text.Mathlib.TextLemmas.{append-nil}
use kind_music_streaming.Prelude.{String, ◌<>◌, ◌≡◌, refl, sym, [], ◌∷◌, arith}
use kind_music_streaming.Kube.{ObjectMeta, Service, StatefulSet, HorizontalPodAutoscaler}
use kind_music_streaming.Api.{MusicService, music_service_kind}
use kind_music_streaming.Exec.{ok}
use kind_music_streaming.Platform.{Library}
use kind_music_streaming.Builder.App.{build_app_stateful_set}
use kind_music_streaming.Builder.Services.{
  build_app_service, build_database_galera_service, build_database_galera_primary_service,
  build_database_galera_read_service, build_database_master_service, build_database_read_service,
}
use kind_music_streaming.Builder.Autoscalers.{build_autoscaler, build_database_replica_autoscaler}
use kind_music_streaming.Builder.Database.{
  build_database_master_stateful_set, build_database_replica_stateful_set,
}
use kind_music_streaming.Builder.Galera.{build_database_galera_stateful_set}

module _ (lib : Library) (ms : MusicService) where
  -- In the namespace of the MusicService, under a name that begins with its name, and controlled by
  -- it and by nothing else.
  pub record IsOwned (meta : ObjectMeta) : Type 0 where
    pub suffix : String
    pub name : meta.name ≡ ms.metadata.name <> suffix
    pub namespace : meta.namespace ≡ ms.metadata.namespace
    pub owner : meta.owner_references ≡ lib.new_controller_ref ms.metadata music_service_kind ∷ []

  pub build_app_service-IsOwned : IsOwned (build_app_service lib ms).metadata
  unfolding build_app_service
  build_app_service-IsOwned = record {
    suffix = "";
    name = sym (append-nil _);
    namespace = refl;
    owner = refl;
  }

  pub build_app_stateful_set-IsOwned :
      (sts : StatefulSet) → build_app_stateful_set lib ms ≡ ok sts → IsOwned sts.metadata
  unfolding build_app_stateful_set
  build_app_stateful_set-IsOwned sts e = record {
    suffix = "";
    name = ground (arith, append-nil ms.metadata.name);
    namespace = ground arith;
    owner = ground arith;
  }

  pub build_database_master_stateful_set-IsOwned :
      (sts : StatefulSet)
      → build_database_master_stateful_set lib ms ≡ ok sts
      → IsOwned sts.metadata
  unfolding build_database_master_stateful_set
  build_database_master_stateful_set-IsOwned sts e = record {
    suffix = "-db-master";
    name = ground arith;
    namespace = ground arith;
    owner = ground arith;
  }

  pub build_database_replica_stateful_set-IsOwned :
      (sts : StatefulSet)
      → build_database_replica_stateful_set lib ms ≡ ok sts
      → IsOwned sts.metadata
  unfolding build_database_replica_stateful_set
  build_database_replica_stateful_set-IsOwned sts e = record {
    suffix = "-db-replica";
    name = ground arith;
    namespace = ground arith;
    owner = ground arith;
  }

  pub build_database_galera_stateful_set-IsOwned :
      (sts : StatefulSet)
      → build_database_galera_stateful_set lib ms ≡ ok sts
      → IsOwned sts.metadata
  unfolding build_database_galera_stateful_set
  build_database_galera_stateful_set-IsOwned sts e = record {
    suffix = "-db-galera";
    name = ground arith;
    namespace = ground arith;
    owner = ground arith;
  }

  pub build_database_galera_service-IsOwned :
      IsOwned (build_database_galera_service lib ms).metadata
  unfolding build_database_galera_service
  build_database_galera_service-IsOwned = record {
    suffix = "-db-galera";
    name = refl;
    namespace = refl;
    owner = refl;
  }

  pub build_database_galera_primary_service-IsOwned :
      IsOwned (build_database_galera_primary_service lib ms).metadata
  unfolding build_database_galera_primary_service
  build_database_galera_primary_service-IsOwned = record {
    suffix = "-db-master";
    name = refl;
    namespace = refl;
    owner = refl;
  }

  pub build_database_galera_read_service-IsOwned :
      IsOwned (build_database_galera_read_service lib ms).metadata
  unfolding build_database_galera_read_service
  build_database_galera_read_service-IsOwned = record {
    suffix = "-db-read";
    name = refl;
    namespace = refl;
    owner = refl;
  }

  pub build_database_master_service-IsOwned :
      IsOwned (build_database_master_service lib ms).metadata
  unfolding build_database_master_service
  build_database_master_service-IsOwned = record {
    suffix = "-db-master";
    name = refl;
    namespace = refl;
    owner = refl;
  }

  pub build_database_read_service-IsOwned : IsOwned (build_database_read_service lib ms).metadata
  unfolding build_database_read_service
  build_database_read_service-IsOwned = record {
    suffix = "-db-read";
    name = refl;
    namespace = refl;
    owner = refl;
  }

  pub build_autoscaler-IsOwned :
      (hpa : HorizontalPodAutoscaler) → build_autoscaler lib ms ≡ ok hpa → IsOwned hpa.metadata
  unfolding build_autoscaler
  build_autoscaler-IsOwned hpa e = record {
    suffix = "-autoscaler";
    name = ground arith;
    namespace = ground arith;
    owner = ground arith;
  }

  pub build_database_replica_autoscaler-IsOwned :
      (hpa : HorizontalPodAutoscaler)
      → build_database_replica_autoscaler lib ms ≡ ok hpa
      → IsOwned hpa.metadata
  unfolding build_database_replica_autoscaler
  build_database_replica_autoscaler-IsOwned hpa e = record {
    suffix = "-db-replica-autoscaler";
    name = ground arith;
    namespace = ground arith;
    owner = ground arith;
  }

-- A service that is built with no way to fail.
pub ok-IsOwned :
    (lib : Library) (ms : MusicService) (built : Service)
    → IsOwned lib ms built.metadata
    → (s : Service) → ok built ≡ ok s
    → IsOwned lib ms s.metadata
ok-IsOwned lib ms built owned s e = record {
  suffix = owned.suffix;
  name = ground arith;
  namespace = ground arith;
  owner = ground arith;
}

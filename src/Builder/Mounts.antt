-- ===== src/Builder/Mounts.antt =====
-- Every mount of a built pod names a volume of the pod or a claim template of its StatefulSet.
use kind_music_streaming.Prelude.{
  String, Bool, true, false, ◌&&◌, ◌||◌, ◌≡◌, List, [], ◌∷◌, ◌===◌, arith,
}
use kind_music_streaming.Kube.{VolumeMount, Container, Volume, PersistentVolumeClaim, StatefulSet}
use kind_music_streaming.Api.{MusicService}
use kind_music_streaming.Exec.{ok}
use kind_music_streaming.Platform.{Library}
use kind_music_streaming.Builder.App.{build_app_stateful_set}
use kind_music_streaming.Builder.Database.{
  build_database_master_stateful_set, build_database_replica_stateful_set,
}
use kind_music_streaming.Builder.Galera.{build_database_galera_stateful_set}

names_volume : String → List Volume → Bool
names_volume name [] = false
names_volume name (v ∷ rest) = v.name === name || names_volume name rest

names_claim : String → List PersistentVolumeClaim → Bool
names_claim name [] = false
names_claim name (p ∷ rest) = p.metadata.name === name || names_claim name rest

mounts_resolve : StatefulSet → List VolumeMount → Bool
unfolding names_volume names_claim
mounts_resolve sts [] = true
mounts_resolve sts (m ∷ rest) =
    (names_volume m.name sts.spec.template.spec.volumes
      || names_claim m.name sts.spec.volume_claim_templates)
    && mounts_resolve sts rest

containers_resolve : StatefulSet → List Container → Bool
unfolding mounts_resolve
containers_resolve sts [] = true
containers_resolve sts (c ∷ rest) =
    mounts_resolve sts c.volume_mounts && containers_resolve sts rest

-- The mounts of all containers, the init containers too.
unfoldable pub resolves : StatefulSet → Bool
unfolding containers_resolve
resolves sts =
    containers_resolve sts sts.spec.template.spec.init_containers
    && containers_resolve sts sts.spec.template.spec.containers

module _ (lib : Library) (ms : MusicService) (sts : StatefulSet) where
  app_resolves : build_app_stateful_set lib ms ≡ ok sts → resolves sts ≡ true
  unfolding build_app_stateful_set resolves
  app_resolves e = ground arith

  master_resolves : build_database_master_stateful_set lib ms ≡ ok sts → resolves sts ≡ true
  unfolding build_database_master_stateful_set resolves
  master_resolves e = ground arith

  replica_resolves : build_database_replica_stateful_set lib ms ≡ ok sts → resolves sts ≡ true
  unfolding build_database_replica_stateful_set resolves
  replica_resolves e = ground arith

  galera_resolves : build_database_galera_stateful_set lib ms ≡ ok sts → resolves sts ≡ true
  unfolding build_database_galera_stateful_set resolves
  galera_resolves e = ground arith

-- In the application's, the master's, the replicas' and the Galera StatefulSet, when they are
-- built, every mount of every container and init container names a volume of the pod or a claim
-- template.
pub built_sets-resolve :
    (lib : Library) (ms : MusicService) (app master replica galera : StatefulSet)
    → build_app_stateful_set lib ms ≡ ok app
    → build_database_master_stateful_set lib ms ≡ ok master
    → build_database_replica_stateful_set lib ms ≡ ok replica
    → build_database_galera_stateful_set lib ms ≡ ok galera
    → (resolves app ≡ true)
      × (resolves master ≡ true)
      × (resolves replica ≡ true)
      × (resolves galera ≡ true)
built_sets-resolve lib ms app master replica galera a m r g = (
  app_resolves lib ms app a,
  master_resolves lib ms master m,
  replica_resolves lib ms replica r,
  galera_resolves lib ms galera g,
)

-- ===== src/Builder/Keys.antt =====
-- The keys that the built objects stand under.
use kind_music_streaming.Prelude.{◌≡◌, refl, arith}
use kind_music_streaming.Kube.{NamespacedName}
use kind_music_streaming.Api.{MusicService}
use kind_music_streaming.Exec.{Outcome, ok}
use kind_music_streaming.Platform.{Kind, stateful_set, autoscaler, Obj, Library}
use kind_music_streaming.Platform.Lawful.{key_of}
use kind_music_streaming.Builder.Common.{name_of}
use kind_music_streaming.Builder.App.{build_app_stateful_set}
use kind_music_streaming.Builder.Autoscalers.{build_autoscaler, build_database_replica_autoscaler}
use kind_music_streaming.Builder.Database.{
  build_database_master_stateful_set, build_database_replica_stateful_set,
}
use kind_music_streaming.Builder.Galera.{build_database_galera_stateful_set}

-- Whatever is built stands under the key.
abbrev pub HasKey : (k : Kind) → Outcome (Obj k) → NamespacedName → Type 0
HasKey k build key = (o : Obj k) → build ≡ ok o → key_of k o ≡ key

pub ok-HasKey : (k : Kind) (o : Obj k) → HasKey k (ok o) (key_of k o)
ok-HasKey k o x e = let same : x ≡ o = ground arith in rw same refl

module _ (lib : Library) (ms : MusicService) where
  pub build_app_stateful_set-HasKey :
      HasKey stateful_set
        (build_app_stateful_set lib ms)
        (record { name = ms.metadata.name; namespace = ms.metadata.namespace })
  unfolding build_app_stateful_set
  build_app_stateful_set-HasKey sts e = ground arith

  pub build_database_master_stateful_set-HasKey :
      HasKey stateful_set (build_database_master_stateful_set lib ms) (name_of ms "-db-master")
  unfolding build_database_master_stateful_set
  build_database_master_stateful_set-HasKey sts e = ground arith

  pub build_database_replica_stateful_set-HasKey :
      HasKey stateful_set (build_database_replica_stateful_set lib ms) (name_of ms "-db-replica")
  unfolding build_database_replica_stateful_set
  build_database_replica_stateful_set-HasKey sts e = ground arith

  pub build_database_galera_stateful_set-HasKey :
      HasKey stateful_set (build_database_galera_stateful_set lib ms) (name_of ms "-db-galera")
  unfolding build_database_galera_stateful_set
  build_database_galera_stateful_set-HasKey sts e = ground arith

  pub build_autoscaler-HasKey :
      HasKey autoscaler (build_autoscaler lib ms) (name_of ms "-autoscaler")
  unfolding build_autoscaler
  build_autoscaler-HasKey hpa e = ground arith

  pub build_database_replica_autoscaler-HasKey :
      HasKey autoscaler
        (build_database_replica_autoscaler lib ms)
        (name_of ms "-db-replica-autoscaler")
  unfolding build_database_replica_autoscaler
  build_database_replica_autoscaler-HasKey hpa e = ground arith

-- ===== src/Builder/Routing.antt =====
-- Which pods the built services reach.
use kind_music_streaming.Prelude.{
  String, Bool, true, false, ◌&&◌, ◌≡◌, refl, Option, none, some, [], ◌∷◌, Map, lookup, ◌===◌,
  arith,
}
use kind_music_streaming.Kube.{StatefulSet, Service}
use kind_music_streaming.Api.{MusicService}
use kind_music_streaming.Exec.{ok}
use kind_music_streaming.Platform.{Library}
use kind_music_streaming.Builder.Common.{selector_labels}
use kind_music_streaming.Builder.App.{build_app_stateful_set}
use kind_music_streaming.Builder.Services.{
  build_app_service, build_database_galera_service, build_database_galera_primary_service,
  build_database_galera_read_service, build_database_master_service, build_database_read_service,
}
use kind_music_streaming.Builder.Database.{
  build_database_master_stateful_set, build_database_replica_stateful_set,
}
use kind_music_streaming.Builder.Galera.{build_database_galera_stateful_set}

has_label : Option String → String → Bool
has_label none v = false
has_label (some w) v = w === v

-- A selector matches labels that have each of its pairs.
unfoldable pub matches : Map String → Map String → Bool
unfolding has_label lookup
matches [] labels = true
matches ((k, v) ∷ rest) labels = has_label (lookup k labels) v && matches rest labels

-- A service reaches the pods of a StatefulSet.
unfoldable pub reaches : Service → StatefulSet → Bool
unfolding matches
reaches s sts = matches s.spec.selector sts.spec.template.labels

matches-selector_labels :
    (a b : MusicService) (x y : String)
    → matches (selector_labels a x) (selector_labels b y)
      ≡ (b.metadata.name === a.metadata.name && y === x)
unfolding matches selector_labels
matches-selector_labels a b x y = ground arith

-- A service that selects a component reaches the pods of a StatefulSet of that component, if the
-- two MusicServices have one name, and no others.
reaches_lem :
    (a b : MusicService) (x y : String) (s : Service) (sts : StatefulSet)
    → s.spec.selector ≡ selector_labels a x
    → sts.spec.template.labels ≡ selector_labels b y
    → reaches s sts ≡ (b.metadata.name === a.metadata.name && y === x)
unfolding reaches
reaches_lem a b x y s sts e f = rw (e, f) (matches-selector_labels a b x y)

module _ (lib : Library) (b : MusicService) (sts : StatefulSet) where
  app_labels :
      build_app_stateful_set lib b ≡ ok sts
      → sts.spec.template.labels ≡ selector_labels b "music-service"
  unfolding build_app_stateful_set
  app_labels e = ground arith

  master_labels :
      build_database_master_stateful_set lib b ≡ ok sts
      → sts.spec.template.labels ≡ selector_labels b "db-master"
  unfolding build_database_master_stateful_set
  master_labels e = ground arith

  replica_labels :
      build_database_replica_stateful_set lib b ≡ ok sts
      → sts.spec.template.labels ≡ selector_labels b "db-replica"
  unfolding build_database_replica_stateful_set
  replica_labels e = ground arith

  galera_labels :
      build_database_galera_stateful_set lib b ≡ ok sts
      → sts.spec.template.labels ≡ selector_labels b "db-galera"
  unfolding build_database_galera_stateful_set
  galera_labels e = ground arith

module _ (lib : Library) (a b : MusicService) (app master replica galera : StatefulSet)
    (app_built : build_app_stateful_set lib b ≡ ok app)
    (master_built : build_database_master_stateful_set lib b ≡ ok master)
    (replica_built : build_database_replica_stateful_set lib b ≡ ok replica)
    (galera_built : build_database_galera_stateful_set lib b ≡ ok galera) where
  -- Whether a service reaches the pods of each of the four StatefulSets.
  abbrev Reach : Service → Bool → Bool → Bool → Bool → Type 0
  Reach s p q r t =
      (reaches s app ≡ p)
      × (reaches s master ≡ q)
      × (reaches s replica ≡ r)
      × (reaches s galera ≡ t)

  selecting :
      (s : Service) (x : String)
      → s.spec.selector ≡ selector_labels a x
      → let same = b.metadata.name === a.metadata.name in
        Reach s
          (same && "music-service" === x)
          (same && "db-master" === x)
          (same && "db-replica" === x)
          (same && "db-galera" === x)
  selecting s x e = (
    reaches_lem a b x "music-service" s app e (app_labels lib b app app_built),
    reaches_lem a b x "db-master" s master e (master_labels lib b master master_built),
    reaches_lem a b x "db-replica" s replica e (replica_labels lib b replica replica_built),
    reaches_lem a b x "db-galera" s galera e (galera_labels lib b galera galera_built),
  )

  -- For the four StatefulSets that are built of a MusicService: the services of another one reach
  -- their pods exactly if the two have one name;
  -- then the application's service reaches the application's pods, the master service the master,
  -- the read service the replicas, and the three services of the Galera cluster its nodes, and
  -- none reaches any pods besides.
  pub services-Reach :
      let same = b.metadata.name === a.metadata.name in
      Reach (build_app_service lib a) same false false false
      × Reach (build_database_master_service lib a) false same false false
      × Reach (build_database_read_service lib a) false false same false
      × Reach (build_database_galera_service lib a) false false false same
      × Reach (build_database_galera_primary_service lib a) false false false same
      × Reach (build_database_galera_read_service lib a) false false false same
  unfolding build_app_service build_database_master_service build_database_read_service
      build_database_galera_service build_database_galera_primary_service
      build_database_galera_read_service
  services-Reach = ground (
    arith,
    selecting (build_app_service lib a) "music-service" refl,
    selecting (build_database_master_service lib a) "db-master" refl,
    selecting (build_database_read_service lib a) "db-replica" refl,
    selecting (build_database_galera_service lib a) "db-galera" refl,
    selecting (build_database_galera_primary_service lib a) "db-galera" refl,
    selecting (build_database_galera_read_service lib a) "db-galera" refl,
  )

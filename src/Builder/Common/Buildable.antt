-- ===== src/Builder/Common/Buildable.antt =====
-- The specs for which the builders return, and their configuration of the database.
use kind_music_streaming.Prelude.{ℕ, ◌≤◌, String, ◌≡◌, refl, Option, none, some, arith}
use kind_music_streaming.Prelude.Int.{pos}
use kind_music_streaming.Kube.{Quantity}
use kind_music_streaming.Api.{StorageSpec, DatabaseSpec, MusicServiceSpec, MusicService}
use kind_music_streaming.Exec.Ensures.{Returns, value, Ends-bind}
use kind_music_streaming.Platform.{Library, must_parse}
use kind_music_streaming.Builder.Common.{
  DatabaseConfig, build_database_config, configure, default_config, storage_size_of,
}

abbrev pub IsQuantity : Library → String → Type 0
IsQuantity lib s = (q : Quantity) × (lib.parse_quantity s ≡ some q)

-- The size of the storage is a quantity, and the replicas are in the range that the API server
-- validates.
pub record IsDatabase (lib : Library) (db : DatabaseSpec) : Type 0 where
  pub storage : (s : StorageSpec) → db.storage ≡ some s → IsQuantity lib s.size
  pub count : ℕ
  pub replicas : db.replicas ≡ pos count
  pub few : count ≤ 10

pub record IsBuildable (lib : Library) (spec : MusicServiceSpec) : Type 0 where
  pub size : IsQuantity lib spec.storage.size
  -- the default size of the database
  pub default : IsQuantity lib "10Gi"
  pub database : (db : DatabaseSpec) → spec.database ≡ some db → IsDatabase lib db

pub must_parse-Returns :
    (lib : Library) (s : String) → IsQuantity lib s → Returns (λ _. Unit {0}) (must_parse lib s)
unfolding must_parse
must_parse-Returns lib s (q, e) = rw (must_parse, e) (value tt)

storage_size_of-Returns :
    (lib : Library) (size : Quantity) (o : Option StorageSpec)
    → ((s : StorageSpec) → o ≡ some s → IsQuantity lib s.size)
    → Returns (λ _. Unit {0}) (storage_size_of lib size o)
unfolding storage_size_of
storage_size_of-Returns lib size none fits = value tt
storage_size_of-Returns lib size (some s) fits = must_parse-Returns lib s.size (fits s refl)

-- The configuration has 0 to 10 replicas, those of the database if there is one.
abbrev pub Counted : Option DatabaseSpec → DatabaseConfig → Type 0
Counted o config =
    (n : ℕ) × (config.replicas ≡ pos n)
    × (n ≤ 10)
    × ((db : DatabaseSpec) → o ≡ some db → db.replicas ≡ pos n)

module _ (lib : Library) (ms : MusicService) (b : IsBuildable lib ms.spec) where
  configure-Returns :
      (size : Quantity) (o : Option DatabaseSpec)
      → ((db : DatabaseSpec) → o ≡ some db → IsDatabase lib db)
      → Returns (Counted o) (configure lib ms size o)
  unfolding configure default_config
  configure-Returns size none fits = value (0, refl, omega arith, λ db e. absurd (ground arith))
  configure-Returns size (some db) fits =
      let d = fits db refl in
      let counts : (x : DatabaseSpec) → some db ≡ some x → x.replicas ≡ pos d.count =
        λ x e. let same : db ≡ x = ground arith in rw (← same) d.replicas in
      Ends-bind (storage_size_of-Returns lib size db.storage d.storage)
        (λ q parsed. value (d.count, d.replicas, d.few, counts))

  pub build_database_config-Returns :
      Returns (Counted ms.spec.database) (build_database_config lib ms)
  unfolding build_database_config
  build_database_config-Returns =
      Ends-bind (must_parse-Returns lib "10Gi" b.default)
        (λ q parsed. configure-Returns q ms.spec.database b.database)

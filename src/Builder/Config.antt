-- ===== src/Builder/Config.antt =====
-- When the StatefulSets can be built, and what the configuration of the database is then.
use kind_music_streaming.Prelude.{◌≡◌, ◌↔◌, none, some, arith}
use kind_music_streaming.Kube.{Quantity}
use kind_music_streaming.Api.{DatabaseSpec, StorageSpec, MusicService}
use kind_music_streaming.Exec.{panic}
use kind_music_streaming.Platform.{Library}
use kind_music_streaming.Builder.Common.{build_database_config}
use kind_music_streaming.Builder.App.{build_app_stateful_set}

-- Building the application's StatefulSet panics exactly when the storage size of the spec is no
-- quantity.
pub build_app_stateful_set-panic :
    (lib : Library) (ms : MusicService)
    → (build_app_stateful_set lib ms ≡ panic) ↔ (lib.parse_quantity ms.spec.storage.size ≡ none)
unfolding build_app_stateful_set
build_app_stateful_set-panic lib ms = ground arith

-- With a database and a storage for it in the spec, and the default size a quantity, the
-- configuration of the database panics exactly when the size of the storage is no quantity.
pub build_database_config-panic :
    (lib : Library) (ms : MusicService) (db : DatabaseSpec) (storage : StorageSpec)
    (size : Quantity)
    → lib.parse_quantity "10Gi" ≡ some size
    → ms.spec.database ≡ some db
    → db.storage ≡ some storage
    → (build_database_config lib ms ≡ panic) ↔ (lib.parse_quantity storage.size ≡ none)
unfolding build_database_config
build_database_config-panic lib ms db storage size d e s = ground arith

-- ===== src/Provider.antt =====
-- internal/database/provider.go: the registry of database providers.
pub mod Registry
use kind_music_streaming.Prelude.{String, ◌<>◌, Option, none, some, [], ◌∷◌, Map, lookup, insert}
use kind_music_streaming.Prelude.Int.{ℤ, pos}
use kind_music_streaming.Builder.{concat}

-- The interface `Provider`: its methods have no state.
pub record Provider : Type 0 where
  pub name : String
  pub default_image : String
  pub default_port : ℤ
  pub default_root_password : String
  pub default_storage_size : String
  pub build_init_replication_script : String → String → String

-- The script that waits for the master by a command.
waiting_script : String → String
unfolding concat
waiting_script command = concat (
    "\n" ∷ "#!/bin/bash\n" ∷ "set -e\n" ∷ "echo \"Waiting for master to be ready...\"\n" ∷ "until "
    ∷ command ∷ " > /dev/null 2>&1; do\n" ∷ "  sleep 2\n" ∷ "done\n"
    ∷ "echo \"Master is ready, configuring replication...\"\n" ∷ [])

mysql_script : String → String → String
unfolding waiting_script
mysql_script master_host password =
    waiting_script ("mysql -h " <> master_host <> " -uroot -p" <> password <> " -e \"SELECT 1\"")

unfoldable pub mariadb_provider : Provider
unfolding mysql_script
mariadb_provider = record {
  name = "mariadb";
  default_image = "mariadb:10.11";
  default_port = pos 3306;
  default_root_password = "rootpass";
  default_storage_size = "10Gi";
  build_init_replication_script = mysql_script;
}

-- The password plays no part.
pg_script : String → String → String
unfolding waiting_script
pg_script master_host password = waiting_script ("pg_isready -h " <> master_host <> " -U postgres")

unfoldable pub postgresql_provider : Provider
unfolding pg_script
postgresql_provider = record {
  name = "postgresql";
  default_image = "postgres:15";
  default_port = pos 5432;
  default_root_password = "postgres";
  default_storage_size = "10Gi";
  build_init_replication_script = pg_script;
}

unfoldable pub mysql_provider : Provider
unfolding mysql_script
mysql_provider = record {
  name = "mysql";
  default_image = "mysql:8.0";
  default_port = pos 3306;
  default_root_password = "rootpass";
  default_storage_size = "10Gi";
  build_init_replication_script = mysql_script;
}

unfoldable pub providers : Map Provider
unfolding mariadb_provider postgresql_provider mysql_provider
providers =
    ("mariadb", mariadb_provider)
    ∷ ("postgresql", postgresql_provider)
    ∷ ("mysql", mysql_provider)
    ∷ []

-- `none` is the nil interface, where "mariadb" itself is not registered.
unfoldable pub get_provider : Map Provider → String → Option Provider
unfolding lookup
get_provider registry db_type = elim (lookup db_type registry) [
  | some p ↦ some p
  | none ↦ lookup "mariadb" registry
]

unfoldable pub register_provider : Map Provider → String → Provider → Map Provider
unfolding insert
register_provider registry name provider = insert name provider registry

-- ===== src/Provider/Registry.antt =====
-- The registry of providers as a map with a default.
use kind_music_streaming.Prelude.{
  String, ◌≡◌, ◌≢◌, none, some, Map, lookup, lookup-insert, ◌===◌, arith, if◌then◌else◌,
}
use kind_music_streaming.Provider.{Provider, providers, get_provider, register_provider}

-- A provider that is registered is the one found under its name, and under any name that is not
-- registered if its own is "mariadb"; under other names the same is found as before.
pub get_provider-register_provider :
    (registry : Map Provider) (name db_type : String) (p : Provider)
    → get_provider (register_provider registry name p) db_type ≡ (
        if name === db_type then some p else elim (lookup db_type registry) [
          | some q ↦ some q
          | none ↦ if name === "mariadb" then some p else lookup "mariadb" registry
        ])
unfolding get_provider register_provider
get_provider-register_provider registry name db_type p =
    ground (arith, lookup-insert name db_type p registry, lookup-insert name "mariadb" p registry)

mariadb_found : lookup "mariadb" providers ≢ none
unfolding lookup providers
mariadb_found = ground arith

-- Of the providers that the package registers, every name finds one, whatever is registered besides.
pub get_provider-providers :
    (db_type name : String) (p : Provider)
    → (get_provider providers db_type ≢ none)
      × (get_provider (register_provider providers name p) db_type ≢ none)
unfolding get_provider register_provider
get_provider-providers db_type name p = ground (
  arith,
  mariadb_found,
  lookup-insert name db_type p providers,
  lookup-insert name "mariadb" p providers,
)

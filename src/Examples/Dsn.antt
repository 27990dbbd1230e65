-- ===== src/Examples/Dsn.antt =====
-- Examples for the connection strings, and for the databases and keys that they keep apart.
use database_router.Shared.{◌≡◌, refl, none, some, [], ◌∷◌, arith}
use database_router.Shared.Action.{Result, err}
use database_router.Shared.Int.{pos}
use database_router.Text.{Text, codes, text_eq}
use database_router.Text.Decimal.{itoa_ℤ}
use database_router.Value.{Row, Fields}
use database_router.Config.{PostgresConfig}
use database_router.Manager.{conn_str}
use database_router.Manager.Dsn.{set, settings, effective}
use database_router.Manager.Dsn.Settings.{IsBare, IsBareConfig, settings-conn_str}
use database_router.Manager.Dsn.Injection.{effective-empty_password}
use database_router.Service.Backends.{new_postgres_service}
use database_router.Server.Postgres.{execute_query}
use database_router.Server.Postgres.Reach.{opened, execute_query-reaches}
use database_router.Core.{Failure, Client, named_client}
use database_router.Core.EndToEnd.{router_of}
use database_router.Core.Confinement.{Confined, operations-StaysIn}
use database_router.Core.Operations.{pg_query, pg_insert, mongo_insert, redis_set, redis_get}
use database_router.Examples.World.{Keys, driver, runtime, config, manager, fresh, ann}

config-IsBareConfig : IsBareConfig config.postgres
unfolding database_router.Text.is_space
config-IsBareConfig = record {
  host = ground arith;
  user = ground arith;
  password = ground arith;
  ssl_mode = ground arith;
}

shop-IsBare : IsBare (codes "shop")
unfolding database_router.Text.is_space
shop-IsBare = ground arith

evil-IsBare : IsBare (codes "evil.example")
unfolding database_router.Text.is_space
evil-IsBare = ground arith

settings-conn_str_example :
    settings (conn_str config.postgres (codes "shop"))
    ≡ set (codes "host") (codes "db")
      ∷ set (codes "port") (itoa_ℤ (pos 5432))
      ∷ set (codes "user") (codes "admin")
      ∷ set (codes "password") (codes "secret")
      ∷ set (codes "dbname") (codes "shop")
      ∷ set (codes "sslmode") (codes "disable")
      ∷ []
settings-conn_str_example =
    settings-conn_str config.postgres config-IsBareConfig (codes "shop") shop-IsBare

abbrev no_password : PostgresConfig
no_password = record config.postgres { password = [] }

effective-empty_password_example :
    (effective (codes "password") (settings (conn_str no_password (codes "shop")))
      ≡ some (codes "dbname=shop"))
    × (effective (codes "dbname") (settings (conn_str no_password (codes "shop"))) ≡ none)
effective-empty_password_example =
    effective-empty_password no_password (codes "shop") config-IsBareConfig.host
      config-IsBareConfig.user refl shop-IsBare config-IsBareConfig.ssl_mode

execute_query-reaches_example :
    (dsn : Text) × (opened
        (execute_query runtime
          (new_postgres_service driver runtime manager)
          none
          (codes "select 1")
          (codes "shop host=evil.example")
          fresh).1.calls
      ≡ dsn ∷ [])
    × (effective (codes "host") (settings dsn) ≡ some (codes "evil.example"))
    × (effective (codes "user") (settings dsn) ≡ some (codes "admin"))
    × (effective (codes "password") (settings dsn) ≡ some (codes "secret"))
execute_query-reaches_example =
    execute_query-reaches driver runtime manager none fresh 1 refl (codes "select 1") (codes "shop")
      (codes "evil.example") config-IsBareConfig shop-IsBare evil-IsBare (ground arith)

abbrev describe : Failure → Text
describe e = []

abbrev new_struct : Row → Result Text Fields
new_struct row = err (codes "invalid type")

abbrev shop : Client Keys
shop = named_client (codes "shop") (router_of driver runtime manager none)

operations-StaysIn_example :
    Confined manager
      (codes "shop")
      []
      (pg_query runtime describe new_struct shop (codes "select 1"))
    × Confined manager
        (codes "shop")
        []
        (pg_insert runtime describe new_struct shop (codes "users") ann)
    × Confined manager
        (codes "shop")
        []
        (mongo_insert runtime describe new_struct shop (codes "carts") ann)
    × Confined manager
        (codes "shop")
        []
        (redis_set runtime describe new_struct shop (codes "cart") (codes "3") (pos 60))
    × Confined manager (codes "shop") [] (redis_get runtime describe new_struct shop (codes "cart"))
operations-StaysIn_example =
    operations-StaysIn driver runtime describe new_struct manager none (codes "shop") []
      config-IsBareConfig shop-IsBare (codes "select 1") (codes "users") (codes "carts")
      (codes "cart") (codes "3") ann (pos 60)

-- ===== src/Manager/Startup.antt =====
-- What the manager holds after `New`, and what `New` leaves open.
use database_router.Shared.{◌≡◌, ◌↔◌, ◌≢◌, true, none, some, arith}
use database_router.Shared.Action.{State, Result, ok, err}
use database_router.Config.{Config}
use database_router.Fault.{GoError}
use database_router.Driver.{Driver}
use database_router.Driver.Calls.{Call, Handle}
use database_router.Manager.{Manager, conn_str, is_true, start_postgres, new_manager}

-- The manager before any connection.
abbrev unconnected : Config → Manager
unconnected cfg = record {
  config = cfg;
  postgres_db = none;
  mongo_db = none;
  redis_client = none;
  ctx = none;
}

abbrev manager_or : Result GoError Manager → Manager → Manager
manager_or (ok m) m' = m
manager_or (err e) m' = m'

module _ {W : Type 0} (d : Driver W) (cfg : Config) (s : State W Call) where
  -- What the driver answers when PostgreSQL is opened, and to the ping of `h` that follows.
  abbrev pub postgres_opened : Result GoError Handle × W
  postgres_opened = d.sql_open (conn_str cfg.postgres cfg.postgres.database) s.world

  abbrev pub postgres_pinged : Handle → Result GoError (Unit {0}) × W
  postgres_pinged h = d.sql_ping (some 5) h postgres_opened.1

  -- The same for MongoDB, in the world that PostgreSQL has left.
  abbrev pub mongo_connected : Result GoError Handle × W
  mongo_connected =
      d.mongo_connect (some 10) cfg.mongo.uri (start_postgres d (unconnected cfg) s).1.world

  abbrev pub mongo_pinged : Handle → Result GoError (Unit {0}) × W
  mongo_pinged h = d.mongo_ping (some 10) h mongo_connected.1

  -- `New` returns a manager whatever the drivers answer. It holds the given configuration. It holds a
  -- PostgreSQL or a MongoDB handle exactly if that backend is enabled, has been opened with this handle
  -- and has answered the ping, while the Redis client is there exactly if Redis is enabled, also where
  -- its ping failed.
  pub new_manager-handles :
      (m : Manager) × ((new_manager d cfg s).0 ≡ ok m)
      × (m.config ≡ cfg)
      × ((h : Handle)
          → (m.postgres_db ≡ some h) ↔ (
              (is_true cfg.postgres.enabled ≡ true)
              × (postgres_opened.0 ≡ ok h)
              × ((postgres_pinged h).0 ≡ ok tt)))
      × ((h : Handle)
          → (m.mongo_db ≡ some h) ↔ (
              (is_true cfg.mongo.enabled ≡ true)
              × (mongo_connected.0 ≡ ok h)
              × ((mongo_pinged h).0 ≡ ok tt)))
      × ((m.redis_client ≢ none) ↔ (is_true cfg.redis.enabled ≡ true))
  unfolding new_manager start_postgres
  new_manager-handles = (
    manager_or (new_manager d cfg s).0 (unconnected cfg),
    ground arith,
    ground arith,
    λ h. (λ e. (ground arith, ground arith, ground arith), λ e. ground arith),
    λ h. (λ e. (ground arith, ground arith, ground arith), λ e. ground arith),
    (λ h. ground arith, λ h. ground arith),
  )

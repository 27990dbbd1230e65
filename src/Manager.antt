-- ===== src/Manager.antt =====
-- internal/db/database.go: the connections of the program. A nil pointer is `none`.
pub mod Startup
pub mod Lifetime
pub mod Dsn
use Prim.Native.Nat.{min}
use database_router.Shared.{
  ℕ, String, Bool, true, false, ◌||◌, Option, none, some, List, ◌++◌, ◌*◌, if◌then◌else◌,
}
use database_router.Shared.Action.{Result, ok, err, pure, raise, attempt, ◌>>=◌, ◌>>◌}
use database_router.Shared.Int.{ℤ}
use database_router.Text.{Text, codes, text_eq, is_empty}
use database_router.Text.Decimal.{itoa_ℤ}
use database_router.Config.{Config, PostgresConfig}
use database_router.Fault.{GoError, message, error_text}
use database_router.Driver.Run
use database_router.Driver.{Driver, Go, tell}
use database_router.Driver.Calls.{Call, Ctx, Handle}

pub record Manager : Type 0 where
  pub config : Config
  pub postgres_db : Option Handle
  pub mongo_db : Option Handle
  pub redis_client : Option Handle
  -- the root context
  pub ctx : Ctx

-- context.WithTimeout(ctx, seconds * time.Second)
abbrev pub with_timeout : Ctx → ℕ → Ctx
with_timeout none seconds = some seconds
with_timeout (some left) seconds = some (min left seconds)

-- fmt.Sprintf("host=%s port=%d user=%s password=%s dbname=%s sslmode=%s", …)
pub conn_str : PostgresConfig → Text → Text
conn_str c dbname =
    codes "host="
    ++ (c.host
        ++ (codes " port="
            ++ (itoa_ℤ c.port
                ++ (codes " user="
                    ++ (c.user
                        ++ (codes " password="
                            ++ (c.password
                                ++ (codes " dbname="
                                    ++ (dbname ++ (codes " sslmode=" ++ c.ssl_mode))))))))))

abbrev pub is_true : Text → Bool
is_true enabled = text_eq enabled (codes "true")

abbrev say : {W : Type 0} → String → Go W (Unit {0})
say line = tell (Call.log (codes line))

-- `log.Printf("… init failed: %v", err)`
abbrev complain : {W : Type 0} → String → GoError → Go W (Unit {0})
complain line e = tell (Call.log (codes line ++ error_text e))

module _ {W : Type 0} (d : Driver W) where
  -- `if err := db.PingContext(ctx); err != nil { db.Close(); … }`
  after_ping : Handle → Result GoError (Unit {0}) → Go W (Handle × Bool)
  after_ping temp (ok _) = pure (temp, true)
  after_ping temp (err e) = do attempt (Run.sql_close d temp); raise e

  init_postgres : Manager → Go W Manager
  init_postgres m = do
    db ← Run.sql_open d (conn_str m.config.postgres m.config.postgres.database)
    tell (Call.set_max_open_conns db 25)
    tell (Call.set_max_idle_conns db 5)
    tell (Call.set_conn_max_lifetime db (5 * 60))
    Run.sql_ping d (with_timeout m.ctx 5) db
    pure (record m { postgres_db = some db })

  -- A connection to the database `dbname`, and whether the caller has to close it.
  unfoldable pub get_postgres_connection : Manager → Text → Go W (Handle × Bool)
  unfolding after_ping
  get_postgres_connection m dbname = elim m.postgres_db [
    | none ↦ raise (message (codes "PostgreSQL not enabled"))
    | some db ↦
        if is_empty dbname || text_eq dbname m.config.postgres.database
        then pure (db, false)
        else do
          temp ← Run.sql_open d (conn_str m.config.postgres dbname)
          pinged ← attempt (Run.sql_ping d (with_timeout m.ctx 5) temp)
          after_ping temp pinged
  ]

  init_mongo : Manager → Go W Manager
  init_mongo m = do
    client ← Run.mongo_connect d (with_timeout m.ctx 10) m.config.mongo.uri
    Run.mongo_ping d (with_timeout m.ctx 10) client
    pure (record m { mongo_db = some client })

  -- The client is assigned before the ping: a failed ping leaves it in place.
  init_redis : Manager → Go W (Manager × Result GoError (Unit {0}))
  init_redis m = do
    client ←
        Run.redis_new_client d (m.config.redis.host ++ codes ":" ++ itoa_ℤ m.config.redis.port)
          m.config.redis.password m.config.redis.db
    pinged ← attempt (Run.redis_ping d (with_timeout m.ctx 5) client)
    pure (record m { redis_client = some client }, pinged)

  postgres_started : Manager → Result GoError Manager → Go W Manager
  postgres_started m (ok m') = do say "PostgreSQL connected"; pure m'
  postgres_started m (err e) = do complain "PostgreSQL init failed: " e; pure m

  mongo_started : Manager → Result GoError Manager → Go W Manager
  mongo_started m (ok m') = do say "MongoDB connected"; pure m'
  mongo_started m (err e) = do complain "MongoDB init failed: " e; pure m

  redis_started : Manager × Result GoError (Unit {0}) → Go W Manager
  redis_started (m, ok _) = do say "Redis connected"; pure m
  redis_started (m, err e) = do complain "Redis init failed: " e; pure m

  pub start_postgres : Manager → Go W Manager
  unfolding init_postgres postgres_started
  start_postgres m =
      if is_true m.config.postgres.enabled
      then (do r ← attempt (init_postgres m); postgres_started m r)
      else pure m

  start_mongo : Manager → Go W Manager
  unfolding init_mongo mongo_started
  start_mongo m =
      if is_true m.config.mongo.enabled
      then (do r ← attempt (init_mongo m); mongo_started m r)
      else pure m

  start_redis : Manager → Go W Manager
  unfolding init_redis redis_started
  start_redis m =
      if is_true m.config.redis.enabled then (do r ← init_redis m; redis_started r) else pure m

  -- `New`: it returns a manager whatever fails.
  unfoldable pub new_manager : Config → Go W Manager
  unfolding start_postgres start_mongo start_redis
  new_manager cfg = do
    m ← start_postgres (record {
      config = cfg;
      postgres_db = none;
      mongo_db = none;
      redis_client = none;
      ctx = none;
    })
    m' ← start_mongo m
    start_redis m'

  close_postgres : Option Handle → Go W (Unit {0})
  close_postgres none = pure tt
  close_postgres (some db) = do attempt (Run.sql_close d db); say "PostgreSQL connection closed"

  close_mongo : Ctx → Option Handle → Go W (Unit {0})
  close_mongo ctx none = pure tt
  close_mongo ctx (some client) = do
    attempt (Run.mongo_disconnect d ctx client)
    say "MongoDB connection closed"

  close_redis : Option Handle → Go W (Unit {0})
  close_redis none = pure tt
  close_redis (some client) = do attempt (Run.redis_close d client); say "Redis connection closed"

  -- `Close`: the errors of the drivers are dropped.
  unfoldable pub close : Manager → Go W (Unit {0})
  unfolding close_postgres close_mongo close_redis
  close m = do
    close_postgres m.postgres_db
    close_mongo m.ctx m.mongo_db
    close_redis m.redis_client

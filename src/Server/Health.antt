-- ===== src/Server/Health.antt =====
-- internal/server/health_server.go: the handlers of HealthService.
pub mod Truth
use database_router.Shared.{Bool, true, false, ◌&&◌, [], if◌then◌else◌}
use database_router.Shared.Action.{Result, ok, err, pure, attempt, ◌>>=◌}
use database_router.Text.{Text, codes}
use database_router.Fault.{GoError, is_not_enabled, error_text}
use database_router.Driver.{Go}
use database_router.Driver.Calls.{Ctx}
use database_router.Service.{PostgresService, MongoService, RedisService, HealthService}
use database_router.Server.Messages.{ConnectionStatus, HealthCheckResponse}

-- The status that each of the three builders gives to an error of TestConnection.
pub failed_status : GoError → ConnectionStatus
unfolding is_not_enabled error_text
failed_status e =
    if is_not_enabled e
    then record {
      status = codes "disabled";
      enabled = false;
      host = [];
      port = [];
      database = [];
      error = [];
    }
    else record {
      status = codes "disconnected";
      enabled = true;
      host = [];
      port = [];
      database = [];
      error = error_text e;
    }

connected : Text → Text → Text → ConnectionStatus
connected host port database = record {
  status = codes "connected";
  enabled = true;
  host = host;
  port = port;
  database = database;
  error = [];
}

postgres_status : Result GoError (Text × Text) → ConnectionStatus
postgres_status (ok (host, database)) = connected host [] database
postgres_status (err e) = failed_status e

mongo_status : Result GoError Text → ConnectionStatus
mongo_status (ok database) = connected [] [] database
mongo_status (err e) = failed_status e

redis_status : Result GoError (Text × Text) → ConnectionStatus
redis_status (ok (host, port)) = connected host port []
redis_status (err e) = failed_status e

build_status : {W : Type 0} → PostgresService W → Ctx → Go W ConnectionStatus
unfolding postgres_status connected failed_status
build_status pg ctx = do tested ← attempt (pg.test_connection ctx); pure (postgres_status tested)

build_mongo_status : {W : Type 0} → MongoService W → Ctx → Go W ConnectionStatus
unfolding mongo_status connected failed_status
build_mongo_status mongo ctx = do
  tested ← attempt (mongo.test_connection ctx)
  pure (mongo_status tested)

build_redis_status : {W : Type 0} → RedisService W → Ctx → Go W ConnectionStatus
unfolding redis_status connected failed_status
build_redis_status redis ctx = do
  tested ← attempt (redis.test_connection ctx)
  pure (redis_status tested)

module _ {W : Type 0} (health : HealthService W) (pg : PostgresService W) (mongo : MongoService W)
    (redis : RedisService W) (ctx : Ctx) where
  unfoldable pub check : Go W HealthCheckResponse
  unfolding build_status build_mongo_status build_redis_status
  check = do
    (pg_ok, mongo_ok, redis_ok) ← health.check_all ctx
    postgres ← build_status pg ctx
    mongo_built ← build_mongo_status mongo ctx
    redis_built ← build_redis_status redis ctx
    pure (record {
      overall_healthy = pg_ok && mongo_ok && redis_ok;
      postgres = postgres;
      mongo = mongo_built;
      redis = redis_built;
    })

  unfoldable pub check_postgres : Go W ConnectionStatus
  unfolding build_status
  check_postgres = build_status pg ctx

  unfoldable pub check_mongo : Go W ConnectionStatus
  unfolding build_mongo_status
  check_mongo = build_mongo_status mongo ctx

  unfoldable pub check_redis : Go W ConnectionStatus
  unfolding build_redis_status
  check_redis = build_redis_status redis ctx

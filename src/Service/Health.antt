-- ===== src/Service/Health.antt =====
-- internal/service/health.go: the connection status of the three backends.
use database_router.Shared.{Bool, true, false}
use database_router.Shared.Action.{Result, ok, err, pure, attempt, ◌>>=◌}
use database_router.Driver.{Go}
use database_router.Driver.Calls.{Ctx}
use database_router.Service.{PostgresService, MongoService, RedisService, HealthService}

-- `err == nil`
abbrev pub is_ok : {E A : Type 0} → Result E A → Bool
is_ok (ok a) = true
is_ok (err e) = false

module _ {W : Type 0} (pg : PostgresService W) (mongo : MongoService W)
    (redis : RedisService W) where
  unfoldable pub check_all : Ctx → Go W (Bool × Bool × Bool)
  check_all ctx = do
    pg_tested ← attempt (pg.test_connection ctx)
    mongo_tested ← attempt (mongo.test_connection ctx)
    redis_tested ← attempt (redis.test_connection ctx)
    pure (is_ok pg_tested, is_ok mongo_tested, is_ok redis_tested)

  abbrev pub new_health_service : HealthService W
  new_health_service = record { check_all = check_all }

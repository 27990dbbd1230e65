-- ===== src/Examples/Connections.antt =====
-- Examples for the connections of the manager and for the health report.
use database_router.Shared.{◌≡◌, ◌≢◌, ◌↔◌, refl, true, false, some, none, [], ◌∷◌, ◌++◌}
use database_router.Shared.Action.{ok, err}
use database_router.Text.{Text, codes}
use database_router.Fault.{message}
use database_router.Driver.Calls.{Handle}
use database_router.Driver.Handles.{still_open}
use database_router.Manager.{Manager, is_true, new_manager, close}
use database_router.Manager.Startup.{
  postgres_opened, postgres_pinged, mongo_connected, mongo_pinged, new_manager-handles,
}
use database_router.Manager.Lifetime.{leaked, close-new_manager}
use database_router.Service.Redis.{second, expiration, whole_seconds}
use database_router.Service.Backends.{new_postgres_service, new_mongo_service, new_redis_service}
use database_router.Service.Health.{new_health_service}
use database_router.Server.Messages.{HealthCheckResponse}
use database_router.Server.Health.{check}
use database_router.Server.Health.Truth.{overall_iff}
use database_router.Examples.World.{driver, silent, runtime, config, manager, offline, fresh}

-- Only the Redis client is there.
abbrev without_backends : Manager
without_backends = record offline { redis_client = some 3 }

new_manager-handles_example :
    (m : Manager) × ((new_manager driver config fresh).0 ≡ ok m)
    × (m.config ≡ config)
    × ((h : Handle)
        → (m.postgres_db ≡ some h) ↔ (
            (is_true config.postgres.enabled ≡ true)
            × ((postgres_opened driver config fresh).0 ≡ ok h)
            × ((postgres_pinged driver config fresh h).0 ≡ ok tt)))
    × ((h : Handle)
        → (m.mongo_db ≡ some h) ↔ (
            (is_true config.mongo.enabled ≡ true)
            × ((mongo_connected driver config fresh).0 ≡ ok h)
            × ((mongo_pinged driver config fresh h).0 ≡ ok tt)))
    × ((m.redis_client ≢ none) ↔ (is_true config.redis.enabled ≡ true))
new_manager-handles_example = new_manager-handles driver config fresh

-- PostgreSQL does not answer the first ping: the connection 7 is left.
left : leaked silent config fresh ≡ 7 ∷ []
unfolding database_router.Text.text_eq
left = refl

close-new_manager_example :
    still_open (close silent without_backends (new_manager silent config fresh).1).1.calls
    ≡ leaked silent config fresh ++ still_open []
unfolding new_manager database_router.Text.text_eq
close-new_manager_example = close-new_manager silent config fresh without_backends refl

-- MongoDB and Redis are out of reach.
abbrev report : HealthCheckResponse
report = record {
  overall_healthy = false;
  postgres = record {
    status = codes "connected";
    enabled = true;
    host = codes "db";
    port = [];
    database = codes "main";
    error = [];
  };
  mongo = record {
    status = codes "disconnected";
    enabled = true;
    host = [];
    port = [];
    database = [];
    error = codes "no reachable servers";
  };
  redis = record {
    status = codes "disconnected";
    enabled = true;
    host = [];
    port = [];
    database = [];
    error = codes "connection refused";
  };
}

overall_iff_example : (report.overall_healthy ≡ true) ↔ (
    (report.postgres.status ≡ codes "connected")
    × (report.mongo.status ≡ codes "connected")
    × (report.redis.status ≡ codes "connected"))
unfolding check database_router.Service.Health.check_all
    database_router.Service.Postgres.test_connection database_router.Service.Mongo.test_connection
    database_router.Service.Redis.test_connection
overall_iff_example =
    overall_iff (new_postgres_service driver runtime manager)
      (new_mongo_service driver runtime manager) (new_redis_service driver runtime manager) none
      fresh (ok (codes "db", codes "main")) (err (message (codes "no reachable servers")))
      (err (message (codes "connection refused"))) (λ s. refl) (λ s. refl) (λ s. refl) report refl

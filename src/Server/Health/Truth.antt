-- ===== src/Server/Health/Truth.antt =====
-- What the health report says of the backends.
use database_router.Shared.{◌≡◌, ◌↔◌, sym, ◌∙◌, true, ◌&&◌, arith}
use database_router.Shared.Action.{State, Result, ok}
use database_router.Text.{Text, codes}
use database_router.Driver.{Go}
use database_router.Driver.Calls.{Call, Ctx}
use database_router.Fault.{GoError}
use database_router.Service.{PostgresService, MongoService, RedisService}
use database_router.Service.Health.{new_health_service, check_all, is_ok}
use database_router.Server.Messages.{HealthCheckResponse}
use database_router.Server.Health.{
  check, postgres_status, mongo_status, redis_status, connected, failed_status,
}

-- A test of a connection that answers `r` in every state.
abbrev Answers : {W A : Type 0} → Go W A → Result GoError A → Type 0
Answers {W} test r = (s : State W Call) → (test s).0 ≡ r

from_statuses :
    (p : Result GoError (Text × Text)) (q : Result GoError Text) (r : Result GoError (Text × Text))
    (report : HealthCheckResponse)
    → ◌≡◌ {A = Result GoError HealthCheckResponse}
        (ok (record {
          overall_healthy = is_ok p && is_ok q && is_ok r;
          postgres = postgres_status p;
          mongo = mongo_status q;
          redis = redis_status r;
        }))
        (ok report)
    → (report.overall_healthy ≡ true) ↔ (
        (report.postgres.status ≡ codes "connected")
        × (report.mongo.status ≡ codes "connected")
        × (report.redis.status ≡ codes "connected"))
unfolding postgres_status mongo_status redis_status connected failed_status
from_statuses p q r report e = (λ h. ground arith, λ h. ground arith)

module _ {W : Type 0} (pg : PostgresService W) (mongo : MongoService W) (redis : RedisService W)
    (ctx : Ctx) (s : State W Call) where
  module _ (p : Result GoError (Text × Text)) (q : Result GoError Text)
      (r : Result GoError (Text × Text)) (hp : Answers (pg.test_connection ctx) p)
      (hq : Answers (mongo.test_connection ctx) q)
      (hr : Answers (redis.test_connection ctx) r) where
    steady :
        (check (new_health_service pg mongo redis) pg mongo redis ctx s).0
        ≡ ok (record {
          overall_healthy = is_ok p && is_ok q && is_ok r;
          postgres = postgres_status p;
          mongo = mongo_status q;
          redis = redis_status r;
        })
    unfolding check check_all
    steady = simp (hp, hq, hr)

    -- While the answers of the backends do not change, the overall flag of Check is set exactly if
    -- each of the three statuses is "connected", so a backend that is disabled clears it too.
    pub overall_iff :
        (report : HealthCheckResponse)
        → (check (new_health_service pg mongo redis) pg mongo redis ctx s).0 ≡ ok report
        → (report.overall_healthy ≡ true) ↔ (
            (report.postgres.status ≡ codes "connected")
            × (report.mongo.status ≡ codes "connected")
            × (report.redis.status ≡ codes "connected"))
    unfolding check check_all
    overall_iff report e = from_statuses p q r report (sym steady ∙ e)

-- ===== src/Server/Dispatch/Effort.antt =====
-- How much work a request is.
use database_router.Shared.{◌+◌, ◌≤◌, ◌≡◌, length, arith}
use database_router.Shared.Action.{State}
use database_router.Value.{Runtime}
use database_router.Driver.{Driver}
use database_router.Driver.Calls.{Call, Ctx}
use database_router.Driver.Handles.{served}
use database_router.Manager.{Manager, get_postgres_connection}
use database_router.Server.Dispatch.{
  PostgresRequest, MongoRequest, RedisRequest, HealthRequest, Request, to_postgres, to_mongo,
  to_redis, to_health, handle_postgres, handle_mongo, handle_redis, handle_health, handle,
}
use database_router.Server.Registry.{new_servers}

-- From `s` to `t` at most six calls have been made, and no server has been started.
abbrev pub Modest : {W : Type 0} → State W Call → State W Call → Type 0
Modest s t = (length t.calls ≤ length s.calls + 6) × (served t.calls ≡ served s.calls)

module _ {W : Type 0} (d : Driver W) (rt : Runtime) (m : Manager) (ctx : Ctx)
    (s : State W Call) where
  handle_postgres-Modest :
      (q : PostgresRequest) → Modest s (handle_postgres rt (new_servers d rt m) ctx s q)
  unfolding served handle_postgres get_postgres_connection
  handle_postgres-Modest PostgresRequest.list_databases = ground arith
  handle_postgres-Modest q = ground arith

  handle_mongo-Modest : (q : MongoRequest) → Modest s (handle_mongo rt (new_servers d rt m) ctx s q)
  unfolding served handle_mongo
  handle_mongo-Modest MongoRequest.list_databases = ground arith
  handle_mongo-Modest q = ground arith

  handle_redis-Modest : (q : RedisRequest) → Modest s (handle_redis rt (new_servers d rt m) ctx s q)
  unfolding served handle_redis
  handle_redis-Modest (RedisRequest.list_keys pattern) = ground arith
  handle_redis-Modest q = ground arith

  handle_health-Modest :
      (q : HealthRequest) → Modest s (handle_health rt (new_servers d rt m) ctx s q)
  unfolding served handle_health
  handle_health-Modest HealthRequest.check = (ground arith, ground arith)
  handle_health-Modest q = ground arith

  -- Whatever the request and whatever the drivers answer, a request ends after at most six calls, and
  -- none of them starts a server.
  pub handle-Modest : (q : Request) → Modest s (handle rt (new_servers d rt m) ctx s q)
  unfolding handle
  handle-Modest (to_postgres q) = handle_postgres-Modest q
  handle-Modest (to_mongo q) = handle_mongo-Modest q
  handle-Modest (to_redis q) = handle_redis-Modest q
  handle-Modest (to_health q) = handle_health-Modest q
